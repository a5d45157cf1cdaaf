-- ===== src/Contract/Laws/Ledger.antt =====
-- The ledger that the token contract keeps in a world, before and after a transaction.
use toychain.Prelude.{◌≡◌, refl, ap, sym, ◌∙◌, true, some, ◌=ᵇ◌, =ᵇ→eq, Bool-cases, inl, inr}
use toychain.Prelude.Int.{ℤ}
use toychain.Outcome.{ok, ok_injective}
use toychain.Types.Value.{Value}
use toychain.Types.Address.{Address}
use toychain.Types.Transaction.{Transaction}
use toychain.Types.Block.{Receipt}
use toychain.Platform.{Platform, Actor}
use toychain.Platform.Laws.{IsHamt, IsActorCodec}
use toychain.Contract.World.{World, Frame}
use toychain.Contract.Call.{call}
use toychain.Contract.Execute.{Contract, get_contract, actor_exec, bumped, bump_nonce}
use toychain.Contract.Laws.Move.{balance, amount_at}
use toychain.Contract.Laws.Actors.{actor_at}
use toychain.Contract.Laws.Nonce.{Started, actor_exec-Started}
use toychain.Contract.Laws.Loads.{flush_memory-Loads}
use toychain.Contract.Laws.Stored.{stored_receiver, stored_store}
use toychain.Contract.Laws.Writes.{called, call_contract_success, store_call-Writes}

module _ (p : Platform) where
  -- The memory that the contract's actor names, as the store loads it.
  pub record IsLedger (w : World p) (contract : Address) (n : p.Node) : Type 0 where
    pub account : Actor
    pub there : actor_at p w contract ≡ ok account
    pub loaded : p.load w.store account.memory ≡ ok n

  -- What an address has in a memory.
  unfoldable pub held : p.Store → p.Node → Address → ℤ
  held st n a = amount_at (p.find st n a)

  pub held-balance : (f : Frame p) (a : Address) → held f.world.store f.memory a ≡ balance p f a
  unfolding held balance
  held-balance f a = refl

  -- The memory that `ActorExec` loads is the receiver's ledger.
  Started-IsLedger :
      (tx : Transaction) (w : World p) (n : p.Node) (s : Started p tx w)
      → IsLedger w tx.to n
      → s.memory ≡ n
  Started-IsLedger tx w n s l = elim (Bool-cases (tx.to =ᵇ tx.sender)) [
    | inl same ↦
        let own : s.sender ≡ l.account =
          ok_injective
            (sym s.is_sender ∙ ap (actor_at p w) (sym (=ᵇ→eq tx.to tx.sender same)) ∙ l.there) in
        let read : p.load w.store s.sender.memory ≡ ok s.memory = rw same at s.is_memory in
        ok_injective (sym read ∙ ap (λ (a : Actor). p.load w.store a.memory) own ∙ l.loaded)
    | inr apart ↦
        let own : s.receiver ≡ l.account = ok_injective (sym s.is_receiver ∙ l.there) in
        let read : p.load w.store s.receiver.memory ≡ ok s.memory = rw apart at s.is_memory in
        ok_injective (sym read ∙ ap (λ (a : Actor). p.load w.store a.memory) own ∙ l.loaded)
  ]

  -- A successful run: the call on the old ledger, and the ledger of the new world.
  pub record Ran (tx : Transaction) (w : World p) (n : p.Node) (w' : World p) : Type 0 where
    pub result : Value
    pub frame : Frame p
    pub returned :
        call p tx.sender tx.method tx.params (record { world = w; memory = n }) ≡ (ok result, frame)
    pub ledger : p.Node
    pub is_ledger : IsLedger w' tx.to ledger
    pub contract : Contract
    pub code : get_contract p is_ledger.account.code ≡ ok contract
    pub answers : (k : Address) → p.find w'.store ledger k ≡ p.find frame.world.store frame.memory k

  pub balances :
      {tx : Transaction} {w w' : World p} {n : p.Node} (r : Ran tx w n w') (a : Address)
      → held w'.store r.ledger a ≡ balance p r.frame a
  unfolding held balance
  balances r a = ap amount_at (r.answers a)

module _ (p : Platform) (laws : IsHamt p) (codec : IsActorCodec p) where
  pub actor_exec-Ran :
      (tx : Transaction) (w : World p) (n : p.Node) {r : Receipt}
      → IsLedger p w tx.to n
      → (actor_exec p tx w).0 ≡ ok r
      → r.success ≡ true
      → Ran p tx w n (actor_exec p tx w).1
  actor_exec-Ran tx w n {r} is_ledger h good =
      let (s, reached) = actor_exec-Started p tx w h in
      let act = bumped p tx s.receiver s.sender in
      let from = bump_nonce s.sender in
      let (val, returned, stored) =
        call_contract_success p tx act from s.memory w {r = r} (cc (h, reached)) good in
      let f = (called p tx act from s.memory w).1 in
      let writes =
        store_call-Writes p tx act from f.memory val f.world {r = r} (cc (h, reached, stored)) in
      let ended = reached ∙ stored in
      let read = Started-IsLedger p tx w n s is_ledger in
      let l = flush_memory-Loads p laws f.memory f.world writes.cid writes.memory_flushed in
      let store = stored_store p laws codec tx act from f.memory val f.world writes in
      let there = stored_receiver p laws codec tx act from f.memory val f.world writes in
      rw ended (record {
        result = val;
        frame = f;
        returned =
            ap (λ m. call p tx.sender tx.method tx.params (record { world = w; memory = m }))
              (sym read)
            ∙ ap (λ o. (o, f)) returned;
        ledger = l.node;
        is_ledger = record {
          account = record act { memory = some writes.cid };
          there = there;
          loaded = rw store l.loaded;
        };
        contract = s.contract;
        code = s.is_contract;
        answers = λ k. rw (store, l.same k);
      })
