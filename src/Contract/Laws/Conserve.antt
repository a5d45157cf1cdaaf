-- ===== src/Contract/Laws/Conserve.antt =====
-- The sum of a ledger under the transactions of a block.
use toychain.Prelude.{
  ℕ, ◌≡◌, ap, sym, ◌∙◌, true, List, [], ◌∷◌, ◌=ᵇ◌, Bool-cases, inl, inr, arith, All, All-map,
}
use mathlib.Core.Path.{fun_ext, subst}
use toychain.Outcome.{ok}
use toychain.Exec.{>>=-eq-ok}
use toychain.Types.Value.{Value}
use toychain.Types.Address.{Address}
use toychain.Types.Transaction.{Transaction}
use toychain.Types.Block.{Receipt}
use toychain.Platform.{Platform}
use toychain.Platform.Laws.{Answered, IsHamt, IsActorCodec}
use toychain.Contract.World.{World, Frame}
use toychain.Contract.Call.{call, transfer_name}
use toychain.Contract.Execute.{actor_exec, apply_transactions}
use toychain.Contract.Laws.Move.{balance}
use toychain.Contract.Laws.Supply.{contains, IsDistinct, total, if_listed, total-transfer}
use toychain.Contract.Laws.Calls.{call-frame, call-transfer}
use toychain.Contract.Laws.Ledger.{IsLedger, held, held-balance, balances, actor_exec-Ran}
use toychain.Contract.Laws.Reading.{IsOrdinary, call-Answered}
use toychain.Contract.Laws.Replay.{revert-KeepsActors, revert-store}

listed :
    (a : Address) (accounts : List Address) (n : ℕ)
    → contains a accounts ≡ true
    → if_listed a accounts n ≡ n
listed a accounts n h = rw h

module _ (p : Platform) where
  -- The ledger of a world, whose sum over the accounts is as given.
  pub record HasTotal (w : World p) (contract : Address) (accounts : List Address) (sum : ℕ)
      : Type 0 where
    pub ledger : p.Node
    pub is_ledger : IsLedger p w contract ledger
    pub reads : All (λ a. Answered (p.find w.store ledger a)) accounts
    pub adds_up : total (held p w.store ledger) accounts ≡ sum

  total-held :
      (f : Frame p) (accounts : List Address)
      → total (held p f.world.store f.memory) accounts ≡ total (balance p f) accounts
  total-held f accounts = ap (λ g. total g accounts) (fun_ext (held-balance p f))

module _ (p : Platform) (laws : IsHamt p) (codec : IsActorCodec p) where
  -- A call that returned a value leaves the sum of the memory.
  call-total :
      (contract : Address) (accounts : List Address) (tx : Transaction) (f g : Frame p) (v : Value)
      → IsDistinct accounts
      → IsOrdinary contract accounts tx
      → call p tx.sender tx.method tx.params f ≡ (ok v, g)
      → total (balance p g) accounts ≡ total (balance p f) accounts
  call-total contract accounts tx f g v distinct ordinary h = elim ordinary.call_is [
    | inl other ↦
        let same = sym (call-frame p tx.sender tx.method tx.params f other) ∙ ap (λ r. r.1) h in
        ap (λ (k : Frame p). total (balance p k) accounts) (sym same)
    | inr (to, n, reads, apart, lists_from, lists_to) ↦
        elim (Bool-cases (tx.method =ᵇ transfer_name)) [
          | inl is_transfer ↦
              let ran = sym (call-transfer p tx.sender tx.method tx.params f is_transfer) ∙ h in
              let moved =
                total-transfer p laws tx.sender to tx.params n f {v = v} reads apart
                  (ap (λ r. r.0) ran) accounts distinct in
              let end = ap (λ r. total (balance p r.1) accounts) ran in
              omega (
                arith,
                moved,
                end,
                listed tx.sender accounts n lists_from,
                listed to accounts n lists_to,
              )
          | inr other ↦
              let same =
                sym (call-frame p tx.sender tx.method tx.params f other) ∙ ap (λ r. r.1) h in
              ap (λ (k : Frame p). total (balance p k) accounts) (sym same)
        ]
  ]

  exec-HasTotal :
      (contract : Address) (accounts : List Address) (sum : ℕ) (tx : Transaction) (w : World p)
      {r : Receipt}
      → IsDistinct accounts
      → IsOrdinary contract accounts tx
      → HasTotal p w contract accounts sum
      → (actor_exec p tx w).0 ≡ ok r
      → HasTotal p (actor_exec p tx w).1 contract accounts sum
  exec-HasTotal contract accounts sum tx w {r} distinct ordinary before h =
      elim (Bool-cases r.success) [
        | inl good ↦
            let here =
              subst (λ a. IsLedger p w a before.ledger) (sym ordinary.to_contract)
                before.is_ledger in
            let ran = actor_exec-Ran p laws codec tx w before.ledger {r = r} here h good in
            let start : Frame p = record { world = w; memory = before.ledger } in
            record {
              ledger = ran.ledger;
              is_ledger =
                  subst (λ a. IsLedger p (actor_exec p tx w).1 a ran.ledger) ordinary.to_contract
                    ran.is_ledger;
              reads =
                  All-map accounts
                    (λ a h. subst Answered (sym (ran.answers a)) (
                      call-Answered p laws contract accounts tx start ran.frame ran.result a
                        ordinary ran.returned h))
                    before.reads;
              adds_up =
                  ap (λ g. total g accounts) (fun_ext (balances p ran))
                  ∙ call-total contract accounts tx start ran.frame ran.result distinct ordinary
                      ran.returned
                  ∙ sym (total-held p start accounts)
                  ∙ before.adds_up;
            }
        | inr failed ↦
            let store = revert-store p laws codec tx w {r = r} h failed in
            record {
              ledger = before.ledger;
              is_ledger = record {
                account = before.is_ledger.account;
                there =
                    revert-KeepsActors p laws codec tx w {r = r} h failed contract
                      before.is_ledger.account before.is_ledger.there;
                loaded = rw store before.is_ledger.loaded;
              };
              reads = rw store before.reads;
              adds_up = rw store before.adds_up;
            }
      ]

  -- By the laws of the HAMT and of an actor's JSON form, the transactions of a block that runs to its
  -- end keep the sum of the contract's ledger over any distinct accounts, if each of them is to the
  -- contract and, where it calls `transfer`, moves an amount that is not negative from one of the
  -- accounts to another. Some of them may revert.
  pub apply_transactions-HasTotal :
      (contract : Address) (accounts : List Address) (sum : ℕ) (txs : List Transaction)
      (w : World p)
      → IsDistinct accounts
      → All (IsOrdinary contract accounts) txs
      → HasTotal p w contract accounts sum
      → (apply_transactions p txs w).0 ≡ ok tt
      → HasTotal p (apply_transactions p txs w).1 contract accounts sum
  unfolding apply_transactions
  apply_transactions-HasTotal contract accounts sum [] w distinct ordinary before h = before
  apply_transactions-HasTotal contract accounts sum (tx ∷ txs) w distinct ordinary before h =
      let (r, e, rest) = >>=-eq-ok (actor_exec p tx) (λ _. apply_transactions p txs) w {b = tt} h in
      rw rest (
        apply_transactions-HasTotal contract accounts sum txs (actor_exec p tx w).1 distinct
          ordinary.1 (exec-HasTotal contract accounts sum tx w {r = r} distinct ordinary.0 before e)
          (cc h))
