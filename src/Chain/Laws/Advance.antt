-- ===== src/Chain/Laws/Advance.antt =====
-- What every operation of the state manager keeps: the head only rises, and no known block is
-- forgotten.
use toychain.Prelude.{
  ℕ, ◌≤◌, ◌≡◌, refl, ap, true, Option, some, List, ◌∷◌, Bool-cases, inl, inr, ◌==◌, arith,
  map-eq-some,
}
use toychain.Outcome.{Outcome, ok, err, panic}
use toychain.Exec.{lift, ◌>>=◌, >>=-keeps}
use toychain.Types.Value.{Cid}
use toychain.Types.Transaction.{Transaction}
use toychain.Types.Block.{Block, score}
use toychain.Types.Pool.{Pool, add, get_best_txs}
use toychain.Platform.{Platform, Actor}
use toychain.Contract.World.{World, nonce_for_actor, get_actor}
use toychain.Chain.Manager.{Manager, block_cid, has, load_root, state_of}
use toychain.Chain.Process.{process_new_block, inform, inform_tx, offer, to_miner, with_pool}
use toychain.Chain.Miner.{
  Miner, contract_addr, in_manager, on_state, fill_block, next_block, reward_tx, get_next_block,
}
use toychain.Chain.Laws.Accept.{Heads, kept, taken, accept_new_block-Heads}
use toychain.Chain.Laws.Process.{
  process_new_block-Ends, score_never_falls, process_new_block-IsAnchored, process_new_block-IsHead,
}

module _ (p : Platform) where
  -- The block's Cid is one of the known good blocks.
  pub record IsKnownGood (m : Manager p) (b : Block) : Type 0 where
    pub cid : Cid
    pub is_cid : block_cid p b ≡ ok cid
    pub known : has cid m.known_good_blocks ≡ true

  pub record Advances (m m' : Manager p) : Type 0 where
    pub rises : score m.best_block ≤ score m'.best_block
    pub learns : (c : Cid) → has c m.known_good_blocks ≡ true → has c m'.known_good_blocks ≡ true
    pub anchors : IsKnownGood m m.best_block → IsKnownGood m' m'.best_block

  pub IsKnownGood-Advances :
      {m m' : Manager p} {b : Block} → Advances m m' → IsKnownGood m b → IsKnownGood m' b
  IsKnownGood-Advances a k = record {
    cid = k.cid;
    is_cid = k.is_cid;
    known = a.learns k.cid k.known;
  }

  -- The part of the manager that the head and the known blocks are.
  abbrev pub Head : Type 0
  Head = Block × List Cid

  abbrev pub head_of : Manager p → Head
  head_of m = (m.best_block, m.known_good_blocks)

  pub Advances-same : (m m' : Manager p) → head_of m' ≡ head_of m → Advances m m'
  Advances-same m m' same =
      let best : m'.best_block ≡ m.best_block = ap (λ h. h.0) same in
      let known : m'.known_good_blocks ≡ m.known_good_blocks = ap (λ h. h.1) same in
      record {
        rises = omega (arith, ap score best);
        learns = λ c h. rw known h;
        anchors = λ k. record { cid = k.cid; is_cid = rw best k.is_cid; known = rw known k.known };
      }

  pub Advances-trans : (a b c : Manager p) → Advances a b → Advances b c → Advances a c
  Advances-trans a b c f g = record {
    rises = omega (arith, f.rises, g.rises);
    learns = λ x h. g.learns x (f.learns x h);
    anchors = λ k. g.anchors (f.anchors k);
  }

  pub Heads-learns :
      (blk : Block) {m m' : Manager p} (c : Cid)
      → Heads p blk m m'
      → has c m.known_good_blocks ≡ true
      → has c m'.known_good_blocks ≡ true
  Heads-learns blk c (kept best head known) h = rw known h
  Heads-learns blk c (taken d is_cid best head known) h = rw known (ground (arith, h))

  process_new_block-learns :
      (fuel : ℕ) (blk : Block) (m : Manager p) {r : Outcome (Unit {0}) × Manager p} (c : Cid)
      → process_new_block p fuel blk m ≡ some r
      → has c m.known_good_blocks ≡ true
      → has c r.1.known_good_blocks ≡ true
  process_new_block-learns fuel blk m {r} c h known =
      let e = process_new_block-Ends p fuel blk m {r = r} h in
      let learned = e.learns.known c known in
      elim e.ends [
        | inl (same, _) ↦ rw same learned
        | inr (_, accepted) ↦
            rw (← accepted) (Heads-learns blk c (accept_new_block-Heads p blk e.validated) learned)
      ]

  pub process_new_block-Advances :
      (fuel : ℕ) (blk : Block) (m : Manager p) {r : Outcome (Unit {0}) × Manager p}
      → process_new_block p fuel blk m ≡ some r
      → Advances m r.1
  process_new_block-Advances fuel blk m {r} h = record {
    rises = score_never_falls p fuel blk m {r = r} h;
    learns = λ c. process_new_block-learns fuel blk m {r = r} c h;
    anchors = λ k.
        let a =
          process_new_block-IsAnchored p fuel blk m {r = r} h
            (record { cid = k.cid; is_cid = k.is_cid; known = k.known }) in
        record { cid = a.cid; is_cid = a.is_cid; known = a.known };
  }

  to_miner-IsKnownGood :
      (fuel : ℕ) (blk : Block) (m : Manager p) (o : Outcome (Unit {0})) {m' : Manager p} (b : Block)
      → process_new_block p fuel blk m ≡ some (o, m')
      → to_miner p blk o ≡ ok (some b)
      → IsKnownGood m' b
  to_miner-IsKnownGood fuel blk m (ok u) {m'} b h sent =
      let (_, head) = process_new_block-IsHead p fuel blk m {m' = m'} h in
      let same : blk ≡ b = cc sent in
      record { cid = head.cid; is_cid = rw (← same) head.is_cid; known = head.known }
  to_miner-IsKnownGood fuel blk m (err e) b h sent = cc sent
  to_miner-IsKnownGood fuel blk m panic b h sent = cc sent

  -- What `Inform` sends to the miner is a block that was accepted.
  pub inform-Advances :
      (fuel : ℕ) (blk : Block) (m : Manager p) {r : Outcome (Option Block) × Manager p}
      → inform p fuel blk m ≡ some r
      → Advances m r.1 × ((b : Block) → r.0 ≡ ok (some b) → IsKnownGood r.1 b)
  inform-Advances fuel blk m {r} h =
      let (v, e, same) =
        map-eq-some (λ r. (to_miner p blk r.0, r.1)) (process_new_block p fuel blk m) {b = r}
          (unfold inform in h) in
      rw (← same) (
        process_new_block-Advances fuel blk m {r = v} e,
        λ b sent. to_miner-IsKnownGood fuel blk m v.0 {m' = v.1} b e sent,
      )

  -- `InformTx` changes nothing but the pool.
  module _ {R : Type 0} (view : Manager p → R)
      (no_pool : (m : Manager p) (pool : Pool) → view (record m { tx_pool = pool }) ≡ view m) where
    with_pool-keeps : (m : Manager p) (r : Outcome Pool) → view (with_pool p m r).1 ≡ view m
    with_pool-keeps m (ok pool) = no_pool m pool
    with_pool-keeps m (err e) = refl
    with_pool-keeps m panic = refl

    offer-keeps :
        (tx : Transaction) (m : Manager p) (r : Outcome Actor) → view (offer p tx m r).1 ≡ view m
    offer-keeps tx m (ok act) = elim (Bool-cases (act.nonce == tx.nonce)) [
      | inl e ↦ rw e (with_pool-keeps m (add p.wrap_tx tx m.tx_pool))
      | inr e ↦ rw e refl
    ]
    offer-keeps tx m (err e) = refl
    offer-keeps tx m panic = refl

    pub inform_tx-keeps : (tx : Transaction) (m : Manager p) → view (inform_tx p tx m).1 ≡ view m
    unfolding inform_tx
    inform_tx-keeps tx m = offer-keeps tx m (get_actor p tx.sender (state_of p m)).0

  pub inform_tx-head : (tx : Transaction) (m : Manager p) → head_of (inform_tx p tx m).1 ≡ head_of m
  inform_tx-head = inform_tx-keeps head_of (λ m pool. refl)

  module _ (order : List Transaction → List Transaction) where
    pub get_next_block-head :
        (miner : Miner) (m : Manager p) → head_of (get_next_block p order miner m).1 ≡ head_of m
    unfolding get_next_block load_root
    get_next_block-head miner m =
        let txs = get_best_txs order m.tx_pool in
        let nb = λ (nonce : ℕ) (c : Cid).
          next_block miner.current_block c (reward_tx miner.miner_address nonce ∷ txs) in
        let fill =
          λ (nonce : ℕ) (c : Cid) (w : World p). on_state p w (fill_block p (nb nonce c)) in
        let root = load_root p miner.current_block.state_root in
        let cid = lift (block_cid p miner.current_block) in
        >>=-keeps head_of (in_manager p (nonce_for_actor p contract_addr))
          (λ nonce. cid >>= λ c. root >>= fill nonce c) (λ m. refl)
          (λ nonce.
            >>=-keeps head_of cid (λ c. root >>= fill nonce c) (λ m. refl)
              (λ c. >>=-keeps head_of root (fill nonce c) (λ m. refl) (λ w m. refl)))
          m
