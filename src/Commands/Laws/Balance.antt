-- ===== src/Commands/Laws/Balance.antt =====
-- `WalletGetBalanceCmd` reads the contract's ledger, before and after a transfer.
use mathlib.Core.Path.{subst}
use toychain.Prelude.{ℕ, ◌≡◌, sym, ap, ◌∙◌, true, false, some, [], ◌∷◌, ◌=ᵇ◌, Bytes, arith}
use toychain.Prelude.Int.{pos, ◌+ℤ◌}
use toychain.Outcome.{Outcome, ok, err, panic}
use toychain.BigInt.{set_bytes}
use toychain.Types.Value.{Value, address, big_int}
use toychain.Types.Address.{Address, parse_address}
use toychain.Types.Transaction.{Transaction}
use toychain.Types.Block.{Receipt}
use toychain.Platform.{Platform}
use toychain.Platform.Laws.{IsHamt, IsActorCodec}
use toychain.Contract.World.{World, Frame, get_actor, get_key}
use toychain.Contract.Token.{get_balance}
use toychain.Contract.Cast.{cast_to_address}
use toychain.Contract.Call.{
  call, get_balance_name, transfer_name, cast_arg, cast_args, typed_call, make_typed_call_closure,
  must_typed_call_closure,
}
use toychain.Contract.Execute.{Contract, actor_exec, get_contract, load_contract_state}
use toychain.Contract.Laws.Actors.{actor_at}
use toychain.Contract.Laws.Transfer.{Reads, transfer_moves_funds}
use toychain.Contract.Laws.Move.{balance, amount_at}
use toychain.Contract.Laws.Calls.{call-transfer}
use toychain.Contract.Laws.Reading.{transfer-found}
use toychain.Contract.Laws.Ledger.{IsLedger, held, held-balance, actor_exec-Ran}
use toychain.Chain.Manager.{state_of}
use toychain.Chain.Miner.{contract_addr}
use toychain.Core.Boot.{ToychainNode}
use toychain.Commands.Wallet.{first_address, query_balance, wallet_get_balance}

module _ (p : Platform) where
  -- What a lookup of the ledger makes the wallet say: a missing entry is an error.
  abbrev pub balance_answer : Outcome Bytes → Outcome Value
  balance_answer (ok b) = ok (big_int (set_bytes b))
  balance_answer (err e) = err e
  balance_answer panic = panic

  call-get_balance :
      (from a : Address) (f : Frame p)
      → (call p from get_balance_name (address a ∷ []) f).0
        ≡ balance_answer (p.find f.world.store f.memory a)
  unfolding call get_balance get_key must_typed_call_closure make_typed_call_closure typed_call
      cast_args cast_arg cast_to_address ◌=ᵇ◌
  call-get_balance from a f = ground arith

  -- The wallet reads the contract's ledger.
  query_balance-answer :
      (a : Address) (w : World p) (n : p.Node) (l : IsLedger p w contract_addr n) (c : Contract)
      → get_contract p l.account.code ≡ ok c
      → query_balance p a w ≡ balance_answer (p.find w.store n a)
  unfolding query_balance get_actor actor_at load_contract_state
  query_balance-answer a w n l c code =
      rw (l.there, code, l.loaded) (call-get_balance [] a (record { world = w; memory = n }))

  wallet-query :
      (text : Bytes) (n : ToychainNode p) {own a : Address}
      → first_address n.addresses ≡ ok own
      → parse_address text ≡ ok a
      → wallet_get_balance p (some text) n ≡ query_balance p a (state_of p n.manager)
  unfolding wallet_get_balance
  wallet-query text n has_own parsed = rw (has_own, parsed)

  balance-entry :
      (f : Frame p) (a : Address) (b : Bytes)
      → p.find f.world.store f.memory a ≡ ok b
      → set_bytes b ≡ balance p f a
  unfolding balance
  balance-entry f a b there = ap amount_at (sym there)

module _ (p : Platform) (laws : IsHamt p) (codec : IsActorCodec p) where
  -- By the laws of the HAMT and of an actor's JSON form, take a transaction to the contract that
  -- transfers an amount that is not negative to another address, and that ran on a node's state, where
  -- the contract has a ledger, to a successful receipt. Ask a node with the state that it left, and
  -- with an address of its own, for the balance of the receiver: the wallet answers what the old
  -- ledger had for it, and the amount on top.
  pub wallet_sees_transfer :
      (tx : Transaction) (to : Address) (k : ℕ) (n later : ToychainNode p) (ledger : p.Node)
      (text : Bytes) {own : Address} {r : Receipt}
      → tx.to ≡ contract_addr
      → (tx.method =ᵇ transfer_name) ≡ true
      → Reads tx.params to (pos k)
      → (tx.sender =ᵇ to) ≡ false
      → IsLedger p (state_of p n.manager) contract_addr ledger
      → (actor_exec p tx (state_of p n.manager)).0 ≡ ok r
      → r.success ≡ true
      → state_of p later.manager ≡ (actor_exec p tx (state_of p n.manager)).1
      → first_address later.addresses ≡ ok own
      → parse_address text ≡ ok to
      → wallet_get_balance p (some text) later
        ≡ ok (big_int (held p n.manager.store ledger to +ℤ pos k))
  wallet_sees_transfer tx to k n later ledger text {own} {r} to_contract is_transfer reads apart
        is_ledger ran good same has_own parsed =
      let w = state_of p n.manager in
      let l = subst (λ a. IsLedger p w a ledger) (sym to_contract) is_ledger in
      let done = actor_exec-Ran p laws codec tx w ledger {r = r} l ran good in
      let f0 : Frame p = record { world = w; memory = ledger } in
      let moved =
        sym (call-transfer p tx.sender tx.method tx.params f0 is_transfer) ∙ done.returned in
      let (_, _, credited, _) =
        transfer_moves_funds p laws tx.sender to tx.params k f0 {v = done.result} reads apart
          (ap (λ x. x.0) moved) in
      let (b, entry) =
        transfer-found p laws tx.sender to tx.params (pos k) f0 {v = done.result} reads
          (ap (λ x. x.0) moved) in
      let there : p.find done.frame.world.store done.frame.memory to ≡ ok b =
        subst (λ (g : Frame p). p.find g.world.store g.memory to ≡ ok b) (ap (λ x. x.1) moved)
          entry in
      let sum : balance p done.frame to ≡ balance p f0 to +ℤ pos k =
        subst (λ (g : Frame p). balance p g to ≡ balance p f0 to +ℤ pos k) (ap (λ x. x.1) moved)
          credited in
      let now : IsLedger p (actor_exec p tx w).1 contract_addr done.ledger = record {
        account = done.is_ledger.account;
        there =
            subst (λ a. actor_at p (actor_exec p tx w).1 a ≡ ok done.is_ledger.account) to_contract
              done.is_ledger.there;
        loaded = done.is_ledger.loaded;
      } in
      let read : set_bytes b ≡ held p w.store ledger to +ℤ pos k =
        balance-entry p done.frame to b there
        ∙ sum
        ∙ ap (λ x. x +ℤ pos k) (sym (held-balance p f0 to)) in
      wallet-query p text later has_own parsed
      ∙ ap (query_balance p to) same
      ∙ query_balance-answer p to (actor_exec p tx w).1 done.ledger now done.contract done.code
      ∙ ap (balance_answer p) (done.answers to ∙ there)
      ∙ ap (λ x. ok (big_int x)) read
