-- ===== src/Contract/Laws/Writes.antt =====
-- The writes of `ActorExec` after a call that succeeded.
use toychain.Prelude.{◌≡◌, refl, ◌∙◌, ◌≢◌, true, some, arith}
use toychain.Outcome.{Outcome, ok, err, panic, Error, Context, wrapping-eq-ok}
use toychain.Exec.{Exec, ◌>>◌, >>=-eq-ok, pure}
use toychain.Types.Value.{Value, Cid}
use toychain.Types.Transaction.{Transaction}
use toychain.Types.Block.{Receipt}
use toychain.Platform.{Platform, Actor}
use toychain.Contract.World.{World, Frame, set_actor}
use toychain.Contract.Call.{call}
use toychain.Contract.Execute.{
  flush_memory, store_sender, store_call, finish, call_contract, in_context, succeeded,
}

module _ (p : Platform) (tx : Transaction) (act from : Actor) (memory : p.Node) (val : Value)
    (w : World p) where
  -- The world after the flush of the memory, and after the receiver's actor was set to it.
  abbrev pub flushed : World p
  flushed = (flush_memory p memory w).1

  abbrev pub receiver_stored : Cid → World p
  receiver_stored c = (set_actor p tx.to (record act { memory = some c }) flushed).1

  -- The three writes of a successful `ActorExec`.
  pub record Writes : Type 0 where
    pub cid : Cid
    pub memory_flushed : (flush_memory p memory w).0 ≡ ok cid
    pub receiver_set : (set_actor p tx.to (record act { memory = some cid }) flushed).0 ≡ ok tt
    pub sender_set : (store_sender p tx from (receiver_stored cid)).0 ≡ ok tt
    pub result :
        store_call p tx act from memory val w
        ≡ (ok (succeeded val), (store_sender p tx from (receiver_stored cid)).1)

  abbrev after_flush : Cid → Exec (World p) Receipt
  after_flush c =
      in_context p Context.set_actor (set_actor p tx.to (record act { memory = some c }))
      >> (store_sender p tx from >> pure (succeeded val))

  pub store_call-Writes : {r : Receipt} → (store_call p tx act from memory val w).0 ≡ ok r → Writes
  unfolding store_call
  store_call-Writes {r} h =
      let (c, e1, r1) = >>=-eq-ok (flush_memory p memory) after_flush w h in
      let (u, e2, r2) =
        >>=-eq-ok
          (in_context p Context.set_actor (set_actor p tx.to (record act { memory = some c })))
          (λ _. store_sender p tx from >> pure (succeeded val)) flushed {b = r} (cc h) in
      let (v, e3, r3) =
        >>=-eq-ok (store_sender p tx from) (λ _. pure (succeeded val)) (receiver_stored c) {b = r}
          (cc (h, r2)) in
      record {
        cid = c;
        memory_flushed = e1;
        receiver_set =
            wrapping-eq-ok Context.set_actor
              (set_actor p tx.to (record act { memory = some c }) flushed).0 e2;
        sender_set = e3;
        result = r1 ∙ r2 ∙ r3;
      }

module _ (p : Platform) (tx : Transaction) (act from : Actor) (memory : p.Node) (w : World p) where
  -- What the call of the contract leaves.
  abbrev pub called : Outcome Value × Frame p
  called = call p tx.sender tx.method tx.params (record { world = w; memory = memory })

  pub call_contract-eq-finish :
      call_contract p tx act from memory w ≡ finish p tx act from called.0 called.1
  unfolding call_contract
  call_contract-eq-finish = refl

  finish_err :
      (x : Error) (f : Frame p) (r : Receipt)
      → (finish p tx act from (err x) f).0 ≡ ok r
      → ¬ (r.success ≡ true)
  unfolding finish
  finish_err x f r h good = ground (arith, good)

  pub finish_panic : (f : Frame p) (r : Receipt) → (finish p tx act from panic f).0 ≢ ok r
  unfolding finish
  finish_panic f r h = cc

  -- A successful receipt comes from a call that returned a value, and from the writes after it.
  pub call_contract_success :
      {r : Receipt}
      → (call_contract p tx act from memory w).0 ≡ ok r
      → r.success ≡ true
      → (val : Value) × (called.0 ≡ ok val)
        × (call_contract p tx act from memory w
            ≡ store_call p tx act from called.1.memory val called.1.world)
  call_contract_success {r} h good = go called.0 refl
    where
      go :
          (o : Outcome Value)
          → called.0 ≡ o
          → (val : Value) × (called.0 ≡ ok val)
            × (call_contract p tx act from memory w
                ≡ store_call p tx act from called.1.memory val called.1.world)
      go (ok val) e = (val, e, call_contract-eq-finish ∙ (unfold finish in rw e))
      go (err x) e = absurd (finish_err x called.1 r (cc (h, e, call_contract-eq-finish)) good)
      go panic e = absurd (finish_panic called.1 r (cc (h, e, call_contract-eq-finish)))
