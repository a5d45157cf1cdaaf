-- ===== src/Core/Laws/System.antt =====
-- What holds of a running node, whatever reaches it and in whatever order.
use mathlib.Core.Option
use mathlib.Core.Option.{some-injective}
use mathlib.Core.Path.{subst}
use toychain.Prelude.{
  ℕ, ◌≡◌, ◌≢◌, leb, refl, Option, none, some, List, [], ◌∷◌, ◌++◌, ◌=ᵇ◌, Bool-cases, inl, inr, All,
  All-map, map-eq-some,
}
use toychain.Outcome.{Outcome, ok, err, panic}
use toychain.Types.Value.{Cid}
use toychain.Types.Block.{Block, score}
use toychain.Types.Transaction.{Transaction}
use toychain.Platform.{Platform}
use toychain.Chain.Manager.{Manager}
use toychain.Chain.Process.{inform, inform_tx}
use toychain.Chain.Miner.{Miner, block_found, run_round}
use toychain.Chain.Laws.Advance.{
  IsKnownGood, IsKnownGood-Advances, Advances, Advances-same, Advances-trans, inform-Advances,
  inform_tx-head,
}
use toychain.Core.Boot.{ToychainNode}
use toychain.Core.Node.{HelloMessage, with_block, handle_head, handle_hello, send_new_block}
use toychain.Core.System.{
  NodeEvent, Services, Stepped, set_manager, informed, take_block, take_tx, take_hello, mined,
  receive, node_step, Reach, block_message, tx_message, subscription_failed, hello_stream,
  timer_fired, miner_receives, address_added, here, next, takes,
}
use toychain.Core.Laws.Round.{Rounds, mine-Rounds}

module _ (p : Platform) where
  -- The best block, the block that the miner builds on, and the blocks that wait for the miner, are
  -- all known good blocks.
  pub record IsSound (n : ToychainNode p) : Type 0 where
    pub best : IsKnownGood p n.manager n.manager.best_block
    pub mining : IsKnownGood p n.manager n.miner.current_block
    pub waiting : All (IsKnownGood p n.manager) n.inbox

  pub record Progress (n : ToychainNode p) (r : ToychainNode p) : Type 0 where
    pub advances : Advances p n.manager r.manager
    pub sound : IsSound n → IsSound r

  keep :
      {m m' : Manager p} (bs : List Block)
      → Advances p m m'
      → All (IsKnownGood p m) bs
      → All (IsKnownGood p m') bs
  keep {m} {m'} bs a = All-map bs (λ b. IsKnownGood-Advances p {m = m} {m' = m'} {b = b} a)

  All-snoc :
      {m : Manager p} (bs : List Block) (b : Block)
      → All (IsKnownGood p m) bs
      → IsKnownGood p m b
      → All (IsKnownGood p m) (bs ++ b ∷ [])
  All-snoc [] b h k = (k, tt)
  All-snoc (c ∷ bs) b h k = (h.0, All-snoc bs b h.1 k)

  manager-Progress :
      (n : ToychainNode p) (m : Manager p) → Advances p n.manager m → Progress n (set_manager p n m)
  manager-Progress n m a = record {
    advances = a;
    sound = λ s. record {
      best = a.anchors s.best;
      mining = IsKnownGood-Advances p a s.mining;
      waiting = keep n.inbox a s.waiting;
    };
  }

  same-Progress : (n : ToychainNode p) → Progress n n
  same-Progress n = record { advances = Advances-same p n.manager n.manager refl; sound = λ s. s }

  informed-Progress :
      (n : ToychainNode p) (o : Outcome (Option Block)) (m : Manager p)
      → Advances p n.manager m
      → ((b : Block) → o ≡ ok (some b) → IsKnownGood p m b)
      → Progress n (informed p n (o, m)).1
  informed-Progress n (ok (some b)) m a k = record {
    advances = a;
    sound = λ s. record {
      best = a.anchors s.best;
      mining = IsKnownGood-Advances p a s.mining;
      waiting = All-snoc n.inbox b (keep n.inbox a s.waiting) (k b refl);
    };
  }
  informed-Progress n (ok none) m a k = manager-Progress n m a
  informed-Progress n (err e) m a k = manager-Progress n m a
  informed-Progress n panic m a k = manager-Progress n m a

  inform-Progress :
      (fuel : ℕ) (blk : Block) (n : ToychainNode p) {r : Stepped p}
      → Option.map (informed p n) (inform p fuel blk n.manager) ≡ some r
      → Progress n r.1
  inform-Progress fuel blk n {r} h =
      let (v, e, same) = map-eq-some (informed p n) (inform p fuel blk n.manager) {b = r} h in
      let (a, k) = inform-Advances p fuel blk n.manager {r = v} e in
      rw (← same) (informed-Progress n v.0 v.1 a k)

  take_block-Progress :
      (fuel : ℕ) (o : Outcome Block) (n : ToychainNode p) {r : Stepped p}
      → take_block p fuel o n ≡ some r
      → Progress n r.1
  take_block-Progress fuel (ok blk) n {r} h = inform-Progress fuel blk n {r = r} h
  take_block-Progress fuel (err e) n h = rw (← some-injective _ _ h) (same-Progress n)
  take_block-Progress fuel panic n h = rw (← some-injective _ _ h) (same-Progress n)

  take_tx-Progress : (o : Outcome Transaction) (n : ToychainNode p) → Progress n (take_tx p o n).1
  take_tx-Progress (ok tx) n =
      let m = (inform_tx p tx n.manager).1 in
      manager-Progress n m (Advances-same p n.manager m (inform_tx-head p tx n.manager))
  take_tx-Progress (err e) n = same-Progress n
  take_tx-Progress panic n = same-Progress n

  mined-Progress :
      (n : ToychainNode p) (r : Outcome Miner × Manager p)
      → Rounds p n.miner n.manager r
      → Progress n (mined p n r).1
  mined-Progress n (ok miner, m) s = record {
    advances = s.advances;
    sound = λ i. record {
      best = s.advances.anchors i.best;
      mining = s.works miner refl i.mining;
      waiting = keep n.inbox s.advances i.waiting;
    };
  }
  mined-Progress n (err e, m) s = manager-Progress n m s.advances
  mined-Progress n (panic, m) s = manager-Progress n m s.advances

  abbrev Informs : Manager p → Outcome (Option Block) × Manager p → Type 0
  Informs m r = Advances p m r.1 × ((b : Block) → r.0 ≡ ok (some b) → IsKnownGood p r.1 b)

  no_block-Informs :
      (m : Manager p) (o : Outcome (Option Block))
      → ((b : Block) → o ≢ ok (some b))
      → Informs m (o, m)
  no_block-Informs m o h = (Advances-same p m m refl, λ b e. absurd (h b e))

  handle_head-Informs :
      (fuel : ℕ) (c : Option Cid) (height : ℕ) (m : Manager p)
      {r : Outcome (Option Block) × Manager p}
      → handle_head p fuel c height m ≡ some r
      → Informs m r
  handle_head-Informs fuel none height m h =
      rw (← some-injective _ _ h) (no_block-Informs m (ok none) (λ b e. cc e))
  handle_head-Informs fuel (some c) height m {r} h =
      elim (Bool-cases (leb height (score m.best_block))) [
        | inl low ↦
            rw (← some-injective _ _ (rw low at h)) (no_block-Informs m (ok none) (λ b e. cc e))
        | inr high ↦ fetched (p.get_block m.store (some c)) (rw high at h)
      ]
    where
      fetched : (o : Outcome Block) → with_block p fuel o m ≡ some r → Informs m r
      fetched (ok blk) e = inform-Advances p fuel blk m {r = r} e
      fetched (err x) e = rw (← some-injective _ _ e) (no_block-Informs m (ok none) (λ b e. cc e))
      fetched panic e = rw (← some-injective _ _ e) (no_block-Informs m panic (λ b e. cc e))

  take_hello-Progress :
      (fuel : ℕ) (o : Option HelloMessage) (n : ToychainNode p) {r : Stepped p}
      → take_hello p fuel o n ≡ some r
      → Progress n r.1
  take_hello-Progress fuel (some x) n {r} h =
      let (v, e, same) = map-eq-some (informed p n) (handle_hello p fuel x n.manager) {b = r} h in
      let (a, k) =
        handle_head-Informs fuel x.head x.block_height n.manager {r = v}
          (unfold handle_hello in e) in
      rw (← same) (informed-Progress n v.0 v.1 a k)
  take_hello-Progress fuel none n h = rw (← some-injective _ _ h) (same-Progress n)

  module _ (s : Services) where
    mine-Progress :
        (fuel : ℕ) (n : ToychainNode p) {r : Stepped p}
        → node_step p s fuel timer_fired n ≡ some r
        → Progress n r.1
    unfolding node_step
    mine-Progress fuel n {r} h =
        let (v, e, same) =
          map-eq-some (mined p n)
            (run_round p s.order (send_new_block p s.publish_block fuel) block_found n.miner
              n.manager)
            {b = r} h in
        rw (← same) (
          mined-Progress n v
            (mine-Rounds p s.order s.publish_block fuel n.miner n.manager {r = v} e))

    receive-Progress :
        (fuel : ℕ) (bs : List Block) (n : ToychainNode p) {r : Stepped p}
        → n.inbox ≡ bs
        → receive p s fuel bs n ≡ some r
        → Progress n r.1
    unfolding run_round
    receive-Progress fuel [] n waits h = rw (← some-injective _ _ h) (same-Progress n)
    receive-Progress fuel (b ∷ bs) n waits h = rw (← some-injective _ _ h) (record {
      advances = Advances-same p n.manager n.manager refl;
      sound = λ i.
          let w = subst (All (IsKnownGood p n.manager)) waits i.waiting in
          record { best = i.best; mining = w.0; waiting = w.1 };
    })

    pub node_step-Progress :
        (fuel : ℕ) (e : NodeEvent) (n : ToychainNode p) {r : Stepped p}
        → node_step p s fuel e n ≡ some r
        → Progress n r.1
    unfolding node_step
    node_step-Progress fuel (block_message from data') n {r} h =
        elim (Bool-cases (from =ᵇ n.self)) [
          | inl own ↦ rw (← some-injective _ _ (rw own at h)) (same-Progress n)
          | inr other ↦ take_block-Progress fuel (s.decode_block data') n {r = r} (rw other at h)
        ]
    node_step-Progress fuel (tx_message data') n h =
        rw (← some-injective _ _ h) (take_tx-Progress (s.decode_tx data') n)
    node_step-Progress fuel subscription_failed n h = rw (← some-injective _ _ h) (same-Progress n)
    node_step-Progress fuel (hello_stream x) n {r} h = take_hello-Progress fuel x n {r = r} h
    node_step-Progress fuel timer_fired n {r} h = mine-Progress fuel n {r = r} h
    node_step-Progress fuel miner_receives n {r} h = receive-Progress fuel n.inbox n {r = r} refl h
    node_step-Progress fuel (address_added a) n h = rw (← some-injective _ _ h) (record {
      advances = Advances-same p n.manager n.manager refl;
      sound = λ i. record { best = i.best; mining = i.mining; waiting = i.waiting };
    })

    pub Reach-Progress : {n m : ToychainNode p} → Reach p s n m → Progress n m
    Reach-Progress {n} here = same-Progress n
    Reach-Progress {n} (next {m} {after} r (takes fuel e h)) =
        let f = Reach-Progress r in
        let g = node_step-Progress fuel e m {r = (ok tt, after)} h in
        record {
          advances = Advances-trans p n.manager m.manager after.manager f.advances g.advances;
          sound = λ i. g.sound (f.sound i);
        }
