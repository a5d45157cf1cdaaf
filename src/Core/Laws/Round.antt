-- ===== src/Core/Laws/Round.antt =====
-- What a round of the miner leaves of the node's head, through `SendNewBlock`.
use mathlib.Core.Option.{some-injective}
use mathlib.Core.Path.{subst}
use toychain.Prelude.{ℕ, ◌≡◌, refl, ap, some, List, ◌∙◌, map-eq-some}
use toychain.Outcome.{Outcome, ok, err, panic, ok_injective}
use toychain.Types.Transaction.{Transaction}
use toychain.Types.Block.{Block}
use toychain.Types.Value.{Cid}
use toychain.Platform.{Platform}
use toychain.Chain.Manager.{Manager, block_cid, add_to_dag}
use toychain.Chain.Process.{process_new_block}
use toychain.Chain.Miner.{
  Miner, block_found, get_next_block, after_callback, after_failure, after_mining, run_round,
}
use toychain.Chain.Laws.Process.{process_new_block-IsHead}
use toychain.Chain.Laws.Advance.{
  IsKnownGood, IsKnownGood-Advances, Advances, Advances-same, Advances-trans,
  process_new_block-Advances, get_next_block-head,
}
use toychain.Core.Node.{then_publish, after_dag, with_node, send_new_block}

module _ (p : Platform) where
  -- The manager has advanced, and knows the block if the call returned no error.
  pub record Sends (b : Block) (m : Manager p) (r : Outcome (Unit {0}) × Manager p) : Type 0 where
    pub advances : Advances p m r.1
    pub sent : r.0 ≡ ok tt → IsKnownGood p r.1 b

  then_publish-Sends :
      (publish : Block → Outcome (Unit {0})) (b : Block) (m : Manager p)
      (r : Outcome (Unit {0}) × Manager p)
      → Sends b m r
      → Sends b m (then_publish p publish b r)
  then_publish-Sends publish b m (ok u, m') s = record {
    advances = s.advances;
    sent = λ _. s.sent refl;
  }
  then_publish-Sends publish b m (err e, m') s = s
  then_publish-Sends publish b m (panic, m') s = s

  process_new_block-Sends :
      (fuel : ℕ) (b : Block) (m : Manager p) (r : Outcome (Unit {0}) × Manager p)
      → process_new_block p fuel b m ≡ some r
      → Sends b m r
  process_new_block-Sends fuel b m r h = record {
    advances = process_new_block-Advances p fuel b m {r = r} h;
    sent = λ e.
        let (_, head) =
          process_new_block-IsHead p fuel b m {m' = r.1} (h ∙ ap (λ o. some (o, r.1)) e) in
        record { cid = head.cid; is_cid = head.is_cid; known = head.known };
  }

  after_dag-Sends :
      (publish : Block → Outcome (Unit {0})) (fuel : ℕ) (b : Block) (m : Manager p)
      (added : Outcome (Unit {0}) × Manager p) {r : Outcome (Unit {0}) × Manager p}
      → Advances p m added.1
      → after_dag p publish fuel b added ≡ some r
      → Sends b m r
  after_dag-Sends publish fuel b m (ok u, m') {r} a h =
      let (v, e, same) =
        map-eq-some (then_publish p publish b) (process_new_block p fuel b m') {b = r} h in
      let s = then_publish-Sends publish b m' v (process_new_block-Sends fuel b m' v e) in
      rw (← same) (record {
        advances = Advances-trans p m m' (then_publish p publish b v).1 a s.advances;
        sent = s.sent;
      })
  after_dag-Sends publish fuel b m (err x, m') a h =
      rw (← some-injective _ _ h) (record { advances = a; sent = λ e. cc e })
  after_dag-Sends publish fuel b m (panic, m') a h =
      rw (← some-injective _ _ h) (record { advances = a; sent = λ e. cc e })

  with_node-Sends :
      (publish : Block → Outcome (Unit {0})) (fuel : ℕ) (b : Block) (m : Manager p)
      (c : Outcome Cid) {r : Outcome (Unit {0}) × Manager p}
      → with_node p publish fuel b m c ≡ some r
      → Sends b m r
  unfolding add_to_dag
  with_node-Sends publish fuel b m (ok c) {r} h =
      after_dag-Sends publish fuel b m (add_to_dag p b m) {r = r}
        (Advances-same p m (add_to_dag p b m).1 refl) h
  with_node-Sends publish fuel b m (err x) h =
      rw (← some-injective _ _ h) (record { advances = Advances-same p m m refl; sent = λ e. cc e })
  with_node-Sends publish fuel b m panic h =
      rw (← some-injective _ _ h) (record { advances = Advances-same p m m refl; sent = λ e. cc e })

  pub send_new_block-Sends :
      (publish : Block → Outcome (Unit {0})) (fuel : ℕ) (b : Block) (m : Manager p)
      {r : Outcome (Unit {0}) × Manager p}
      → send_new_block p publish fuel b m ≡ some r
      → Sends b m r
  unfolding send_new_block
  send_new_block-Sends publish fuel b m {r} h =
      with_node-Sends publish fuel b m (block_cid p b) {r = r} h

  -- The manager has advanced, and the miner works on a known block as before.
  pub record Rounds (old : Miner) (m : Manager p) (r : Outcome Miner × Manager p) : Type 0 where
    pub advances : Advances p m r.1
    pub works :
        (miner : Miner)
        → r.0 ≡ ok miner
        → IsKnownGood p m old.current_block
        → IsKnownGood p r.1 miner.current_block

  same-Rounds :
      (miner : Miner) (m m' : Manager p) (o : Outcome Miner)
      → Advances p m m'
      → ((new : Miner) → o ≡ ok new → miner ≡ new)
      → Rounds miner m (o, m')
  same-Rounds miner m m' o a same = record {
    advances = a;
    works = λ new e k.
        subst (λ (w : Miner). IsKnownGood p m' w.current_block) (same new e)
          (IsKnownGood-Advances p a k);
  }

  module _ (order : List Transaction → List Transaction) where
    after_callback-Rounds :
        (miner : Miner) (nb : Block) (m : Manager p) (r : Outcome (Unit {0}) × Manager p)
        → Sends nb m r
        → Rounds miner m (after_callback p order miner nb r)
    after_callback-Rounds miner nb m (ok u, m') s = record {
      advances = s.advances;
      works = λ new e k.
          subst (λ (w : Miner). IsKnownGood p m' w.current_block) (ok_injective e) (s.sent refl);
    }
    after_callback-Rounds miner nb m (err x, m') s = record {
      advances = s.advances;
      works = λ new e k.
          subst (λ (w : Miner). IsKnownGood p m' w.current_block) (ok_injective e)
            (IsKnownGood-Advances p s.advances k);
    }
    after_callback-Rounds miner nb m (panic, m') s = record {
      advances = s.advances;
      works = λ new e k. cc e;
    }

    after_failure-same :
        (miner new : Miner) (c : Outcome Cid) → after_failure p order miner c ≡ ok new → miner ≡ new
    after_failure-same miner new (ok c) h = ok_injective h
    after_failure-same miner new (err e) h = cc h
    after_failure-same miner new panic h = cc h

    module _ (publish : Block → Outcome (Unit {0})) where
      after_mining-Rounds :
          (fuel : ℕ) (miner : Miner) (m : Manager p) (made : Outcome Block × Manager p)
          {r : Outcome Miner × Manager p}
          → Advances p m made.1
          → after_mining p order (send_new_block p publish fuel) miner made ≡ some r
          → Rounds miner m r
      after_mining-Rounds fuel miner m (ok nb, m') {r} a h =
          let (v, e, same) =
            map-eq-some (after_callback p order miner nb) (send_new_block p publish fuel nb m')
              {b = r} h in
          let sent = send_new_block-Sends publish fuel nb m' {r = v} e in
          rw (← same) (
            after_callback-Rounds miner nb m v
              (record { advances = Advances-trans p m m' v.1 a sent.advances; sent = sent.sent }))
      after_mining-Rounds fuel miner m (err e, m') a h = rw (← some-injective _ _ h) (
          same-Rounds miner m m' (after_failure p order miner (block_cid p miner.current_block)) a
            (λ new. after_failure-same miner new (block_cid p miner.current_block)))
      after_mining-Rounds fuel miner m (panic, m') a h =
          rw (← some-injective _ _ h) (same-Rounds miner m m' panic a (λ new e. cc e))

      -- A block that was mined is worked on only if the manager took it.
      pub mine-Rounds :
          (fuel : ℕ) (miner : Miner) (m : Manager p) {r : Outcome Miner × Manager p}
          → run_round p order (send_new_block p publish fuel) block_found miner m ≡ some r
          → Rounds miner m r
      unfolding run_round
      mine-Rounds fuel miner m {r} h =
          let made = get_next_block p order miner m in
          after_mining-Rounds fuel miner m made {r = r}
            (Advances-same p m made.1 (get_next_block-head p order miner m)) h
