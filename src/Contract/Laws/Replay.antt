-- ===== src/Contract/Laws/Replay.antt =====
-- The nonce of a transaction in `ActorExec` of contract/state.go, run once and run again.
use toychain.Prelude.{
  ℕ, ◌+◌, ◌%◌, ◌^◌, ◌<◌, ◌≡◌, refl, ◌∙◌, ◌≢◌, ap, true, false, sym, ◌=ᵇ◌, =ᵇ→eq, Bool-cases, inl,
  inr, arith,
}
use mathlib.Core.Bool.{false≢true}
use toychain.Outcome.{Outcome, ok, err, panic, Error, Message, message}
use toychain.Types.Value.{Value}
use toychain.Types.Transaction.{Transaction}
use toychain.Types.Block.{Receipt}
use toychain.Platform.{Platform, Actor}
use toychain.Platform.Laws.{IsHamt, IsActorCodec}
use toychain.Contract.World.{World, get_actor}
use toychain.Contract.Execute.{
  bump_nonce, check_nonce, get_sender, bumped, finish, store_call, actor_exec, succeeded,
  err_is_fatal,
}
use toychain.Contract.Laws.Actors.{actor_at, KeepsActors, call-KeepsActors}
use toychain.Contract.Laws.Nonce.{actor_exec-Started}
use toychain.Contract.Laws.Calls.{call-store}
use toychain.Contract.Laws.Stored.{exec_actors}
use toychain.Contract.Laws.Writes.{called, call_contract-eq-finish, finish_panic, store_call-Writes}

module _ (p : Platform) (tx : Transaction) (w : World p) where
  -- Where both addresses have an actor, a transaction that does not carry its sender's nonce is
  -- refused, and changes nothing.
  pub stale_nonce_refused :
      (receiver sender : Actor)
      → actor_at p w tx.to ≡ ok receiver
      → actor_at p w tx.sender ≡ ok sender
      → sender.nonce ≢ tx.nonce
      → actor_exec p tx w ≡ (err (message Message.invalid_nonce), w)
  unfolding actor_exec get_sender check_nonce actor_at get_actor
  stale_nonce_refused receiver sender h k stale = elim (Bool-cases (tx.to =ᵇ tx.sender)) [
    | inl same ↦
        let own : ok receiver ≡ ok sender =
          cc (h, k, ap (actor_at p w) (=ᵇ→eq tx.to tx.sender same)) in
        ground (arith, h, same, own)
    | inr apart ↦ ground (arith, h, apart, k)
  ]

err_ne_ok : (r : Receipt) (e : Error) → err e ≢ ok r
err_ne_ok r e h = cc

next_ne : (n : ℕ) → n < 2 ^ 64 → n ≢ (n + 1) % 2 ^ 64
next_ne n h = omega arith

module _ (p : Platform) (laws : IsHamt p) (codec : IsActorCodec p) (tx : Transaction)
    (w : World p) where
  -- By the laws of the HAMT and of an actor's JSON form, a successful receipt means that the
  -- transaction carried the sender's nonce, and leaves the sender with the next one, modulo 2^64.
  pub nonce_advances :
      {r : Receipt}
      → (actor_exec p tx w).0 ≡ ok r
      → r.success ≡ true
      → (before : Actor) × (after : Actor) × (actor_at p w tx.sender ≡ ok before)
        × (before.nonce ≡ tx.nonce)
        × (actor_at p (actor_exec p tx w).1 tx.sender ≡ ok after)
        × (after.nonce ≡ (tx.nonce + 1) % 2 ^ 64)
  nonce_advances h good =
      let (before, after, found, nonce, left, next, _) = exec_actors p laws codec tx w h good in
      (before, after, found, nonce, left, next)

  -- By the laws of the HAMT and of an actor's JSON form, a transaction with a nonce below 2^64
  -- whose run ended in a successful receipt is refused when it comes again at once, and the second
  -- run changes nothing.
  pub no_replay :
      {r : Receipt}
      → tx.nonce < 2 ^ 64
      → (actor_exec p tx w).0 ≡ ok r
      → r.success ≡ true
      → actor_exec p tx (actor_exec p tx w).1
        ≡ (err (message Message.invalid_nonce), (actor_exec p tx w).1)
  no_replay small h good =
      let (before, after, found, nonce, left, next, (receiver, there)) =
        exec_actors p laws codec tx w h good in
      stale_nonce_refused p tx (actor_exec p tx w).1 receiver after there left
        (λ same. next_ne tx.nonce small (cc (same, next)))

  store_call_succeeds :
      (act from : Actor) (memory : p.Node) (val : Value) (v : World p) {r : Receipt}
      → (store_call p tx act from memory val v).0 ≡ ok r
      → r.success ≡ true
  store_call_succeeds act from memory val v {r} h =
      let s = store_call-Writes p tx act from memory val v {r = r} h in
      let same : succeeded val ≡ r = cc (h, s.result) in ap (λ (x : Receipt). x.success) (sym same)

  finish_reverted :
      (act from : Actor) (memory : p.Node) (o : Outcome Value) {r : Receipt}
      → (called p tx act from memory w).0 ≡ o
      → (finish p tx act from o (called p tx act from memory w).1).0 ≡ ok r
      → r.success ≡ false
      → KeepsActors p w (finish p tx act from o (called p tx act from memory w).1).1
  finish_reverted act from memory (ok val) {r} e h failed =
      let f = (called p tx act from memory w).1 in
      absurd (
        false≢true (
          sym failed
          ∙ store_call_succeeds act from f.memory val f.world {r = r} (unfold finish in h)))
  finish_reverted act from memory (err x) {r} e h failed = elim (Bool-cases (err_is_fatal x)) [
    | inl fatal ↦ absurd (err_ne_ok r x (unfold finish in rw fatal at h))
    | inr reverts ↦
        unfold finish in
        rw reverts (
          call-KeepsActors p laws codec tx.sender tx.method tx.params
            (record { world = w; memory = memory }) (rw e reverts))
  ]
  finish_reverted act from memory panic {r} e h failed =
      absurd (finish_panic p tx act from memory w (called p tx act from memory w).1 r h)

  -- By the laws of the HAMT and of an actor's JSON form, a call that reverted leaves every actor
  -- that was there as it was, the sender's nonce included.
  pub revert-KeepsActors :
      {r : Receipt}
      → (actor_exec p tx w).0 ≡ ok r
      → r.success ≡ false
      → KeepsActors p w (actor_exec p tx w).1
  revert-KeepsActors {r} h failed =
      let (s, reached) = actor_exec-Started p tx w h in
      let act = bumped p tx s.receiver s.sender in
      let from = bump_nonce s.sender in
      let ended = reached ∙ call_contract-eq-finish p tx act from s.memory w in
      rw ended (
        finish_reverted act from s.memory (called p tx act from s.memory w).0 {r = r} refl
          (cc (h, ended)) failed)

  finish-store :
      (act from : Actor) (memory : p.Node) (o : Outcome Value) {r : Receipt}
      → (finish p tx act from o (called p tx act from memory w).1).0 ≡ ok r
      → r.success ≡ false
      → (finish p tx act from o (called p tx act from memory w).1).1.store ≡ w.store
  finish-store act from memory (ok val) {r} h failed =
      let f = (called p tx act from memory w).1 in
      absurd (
        false≢true (
          sym failed
          ∙ store_call_succeeds act from f.memory val f.world {r = r} (unfold finish in h)))
  finish-store act from memory (err x) {r} h failed = elim (Bool-cases (err_is_fatal x)) [
    | inl fatal ↦ absurd (err_ne_ok r x (unfold finish in rw fatal at h))
    | inr reverts ↦
        unfold finish in
        rw reverts
          (call-store p tx.sender tx.method tx.params (record { world = w; memory = memory }))
  ]
  finish-store act from memory panic {r} h failed =
      absurd (finish_panic p tx act from memory w (called p tx act from memory w).1 r h)

  -- Nor does a reverted call change the store.
  pub revert-store :
      {r : Receipt}
      → (actor_exec p tx w).0 ≡ ok r
      → r.success ≡ false
      → (actor_exec p tx w).1.store ≡ w.store
  revert-store {r} h failed =
      let (s, reached) = actor_exec-Started p tx w h in
      let act = bumped p tx s.receiver s.sender in
      let from = bump_nonce s.sender in
      let ended = reached ∙ call_contract-eq-finish p tx act from s.memory w in
      rw ended (
        finish-store act from s.memory (called p tx act from s.memory w).0 {r = r} (cc (h, ended))
          failed)
