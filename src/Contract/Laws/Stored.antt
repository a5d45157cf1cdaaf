-- ===== src/Contract/Laws/Stored.antt =====
-- What `ActorExec` has written when it returns a successful receipt.
use toychain.Prelude.{
  ℕ, ◌+◌, ◌%◌, ◌^◌, ◌≡◌, refl, ◌∙◌, ap, true, false, some, ◌=ᵇ◌, =ᵇ-self, =ᵇ-symm, Bool-cases, inl,
  inr, arith,
}
use toychain.Outcome.{Outcome, ok, err, panic, Context, wrapping-eq-ok}
use toychain.Types.Value.{Value}
use toychain.Types.Transaction.{Transaction}
use toychain.Types.Block.{Receipt}
use toychain.Platform.{Platform, Actor}
use toychain.Platform.Laws.{IsHamt, IsActorCodec, Grows, Grows-trans}
use toychain.Contract.World.{World, set_actor}
use toychain.Contract.Execute.{
  bump_nonce, flush_memory, store_sender, store_call, bumped, actor_exec,
}
use toychain.Contract.Laws.Actors.{actor_at, KeepsActors, KeepsActors-Grows, actor_at-set_actor}
use toychain.Contract.Laws.Calls.{set_actor-store}
use toychain.Contract.Laws.Nonce.{actor_exec-Started}
use toychain.Contract.Laws.Writes.{
  receiver_stored, Writes, store_call-Writes, called, call_contract_success,
}

module _ (p : Platform) (laws : IsHamt p) (codec : IsActorCodec p) where
  pub flush_memory-Grows : (n : p.Node) (w : World p) → Grows p w.store (flush_memory p n w).1.store
  unfolding flush_memory
  flush_memory-Grows n w = go (p.flush n w.store).0 refl
    where
      go :
          (r : Outcome (Unit {0}))
          → (p.flush n w.store).0 ≡ r
          → Grows p w.store (flush_memory p n w).1.store
      go (ok u) e =
          rw (e, flush_memory)
            (Grows-trans p w.store (p.flush n w.store).2
              (p.put (p.flush n w.store).1 (p.flush n w.store).2).1 (laws.flush_grows w.store n)
              (laws.put_grows (p.flush n w.store).2 (p.flush n w.store).1))
      go (err x) e = rw (e, flush_memory) (laws.flush_grows w.store n)
      go panic e = rw (e, flush_memory) (laws.flush_grows w.store n)

  pub flush_memory-KeepsActors : (n : p.Node) (w : World p) → KeepsActors p w (flush_memory p n w).1
  flush_memory-KeepsActors n w =
      KeepsActors-Grows p w (flush_memory p n w).1 (unfold flush_memory in ground arith)
        (flush_memory-Grows n w)

  -- The two actors after the three writes.
  module _ (tx : Transaction) (act from : Actor) (memory : p.Node) (val : Value) (w : World p)
      (s : Writes p tx act from memory val w) where
    sender_own :
        (tx.to =ᵇ tx.sender) ≡ true
        → actor_at p (store_call p tx act from memory val w).1 tx.sender
          ≡ ok (record act { memory = some s.cid })
    sender_own same =
        let after =
          actor_at-set_actor p laws codec tx.to tx.sender (record act { memory = some s.cid })
            (flush_memory p memory w).1 s.receiver_set in
        rw s.result (unfold store_sender in rw same (rw (after, same)))

    receiver_own :
        (tx.to =ᵇ tx.sender) ≡ true
        → actor_at p (store_call p tx act from memory val w).1 tx.to
          ≡ ok (record act { memory = some s.cid })
    receiver_own same =
        let after =
          actor_at-set_actor p laws codec tx.to tx.to (record act { memory = some s.cid })
            (flush_memory p memory w).1 s.receiver_set in
        rw s.result (unfold store_sender in rw same (rw (after, =ᵇ-self tx.to)))

    sender_other :
        (tx.to =ᵇ tx.sender) ≡ false
        → actor_at p (store_call p tx act from memory val w).1 tx.sender ≡ ok from
    sender_other apart =
        let stored = receiver_stored p tx act from memory val w s.cid in
        let set =
          wrapping-eq-ok Context.set_actor (set_actor p tx.sender from stored).0
            (unfold store_sender in rw apart at s.sender_set) in
        let after = actor_at-set_actor p laws codec tx.sender tx.sender from stored set in
        rw s.result (unfold store_sender in rw apart (rw (after, =ᵇ-self tx.sender)))

    -- With two addresses the receiver keeps its nonce and has the new memory.
    receiver_other :
        (tx.to =ᵇ tx.sender) ≡ false
        → actor_at p (store_call p tx act from memory val w).1 tx.to
          ≡ ok (record act { memory = some s.cid })
    receiver_other apart =
        let stored = receiver_stored p tx act from memory val w s.cid in
        let set =
          wrapping-eq-ok Context.set_actor (set_actor p tx.sender from stored).0
            (unfold store_sender in rw apart at s.sender_set) in
        let after = actor_at-set_actor p laws codec tx.sender tx.to from stored set in
        let before =
          actor_at-set_actor p laws codec tx.to tx.to (record act { memory = some s.cid })
            (flush_memory p memory w).1 s.receiver_set in
        rw s.result (
          unfold store_sender in
          rw apart (rw (after, =ᵇ-symm tx.sender tx.to, apart, before, =ᵇ-self tx.to)))

    -- The receiver has the flushed memory, and the store is the one that the flush left.
    pub stored_receiver :
        actor_at p (store_call p tx act from memory val w).1 tx.to
        ≡ ok (record act { memory = some s.cid })
    stored_receiver = elim (Bool-cases (tx.to =ᵇ tx.sender)) [
      | inl same ↦ receiver_own same
      | inr apart ↦ receiver_other apart
    ]

    pub stored_store :
        (store_call p tx act from memory val w).1.store ≡ (flush_memory p memory w).1.store
    stored_store =
        let after = receiver_stored p tx act from memory val w s.cid in
        let put =
          set_actor-store p tx.to (record act { memory = some s.cid })
            (flush_memory p memory w).1 in
        rw s.result (elim (Bool-cases (tx.to =ᵇ tx.sender)) [
          | inl same ↦ unfold store_sender in rw same put
          | inr apart ↦
              unfold store_sender in rw apart (set_actor-store p tx.sender from after ∙ put)
        ])

  -- The actors of a transaction before and after a run that ends in a successful receipt.
  pub exec_actors :
      (tx : Transaction) (w : World p) {r : Receipt}
      → (actor_exec p tx w).0 ≡ ok r
      → r.success ≡ true
      → (before : Actor) × (after : Actor) × (actor_at p w tx.sender ≡ ok before)
        × (before.nonce ≡ tx.nonce)
        × (actor_at p (actor_exec p tx w).1 tx.sender ≡ ok after)
        × (after.nonce ≡ (tx.nonce + 1) % 2 ^ 64)
        × ((receiver : Actor) × (actor_at p (actor_exec p tx w).1 tx.to ≡ ok receiver))
  exec_actors tx w {r} h good =
      let (s, reached) = actor_exec-Started p tx w h in
      let act = bumped p tx s.receiver s.sender in
      let from = bump_nonce s.sender in
      let (val, returned, stored) =
        call_contract_success p tx act from s.memory w {r = r} (cc (h, reached)) good in
      let called' = called p tx act from s.memory w in
      let writes =
        store_call-Writes p tx act from called'.1.memory val called'.1.world {r = r}
          (cc (h, reached, stored)) in
      let next : from.nonce ≡ (tx.nonce + 1) % 2 ^ 64 = ap (λ (n : ℕ). (n + 1) % 2 ^ 64) s.nonce in
      elim (Bool-cases (tx.to =ᵇ tx.sender)) [
        | inl same ↦ (
          s.sender,
          record act { memory = some writes.cid },
          s.is_sender,
          s.nonce,
          rw (reached, stored)
              (sender_own tx act from called'.1.memory val called'.1.world writes same),
          rw same next,
          (
            record act { memory = some writes.cid },
            rw (reached, stored)
                (receiver_own tx act from called'.1.memory val called'.1.world writes same),
          ),
        )
        | inr apart ↦ (
          s.sender,
          from,
          s.is_sender,
          s.nonce,
          rw (reached, stored)
              (sender_other tx act from called'.1.memory val called'.1.world writes apart),
          next,
          (
            record act { memory = some writes.cid },
            rw (reached, stored)
                (receiver_other tx act from called'.1.memory val called'.1.world writes apart),
          ),
        )
      ]
