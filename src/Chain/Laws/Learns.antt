-- ===== src/Chain/Laws/Learns.antt =====
-- What the validation of a block leaves alone, and what it learns.
use mathlib.Core.Option.{some-injective}
use toychain.Prelude.{
  map-eq-some, ℕ, ◌<◌, ◌≡◌, ◌≢◌, ◌⊎◌, refl, sym, ap, true, some, List, [], ◌∷◌, Bool-cases, inl,
  inr, arith, leb,
}
use toychain.Outcome.{Outcome, ok, err, panic, Context, wrapping, Outcome-cases}
use toychain.Types.Value.{Cid}
use toychain.Types.Block.{Block, score}
use toychain.Platform.{Platform}
use toychain.Contract.World.{World, load_state}
use toychain.Chain.Manager.{Manager, has, block_cid}
use toychain.Chain.Validate.{
  execute_blocks, check_block_state_change_valid, validate_from, after_walk, walk, validate_block,
}

module _ (p : Platform) where
  -- What the validation of a block leaves alone, whatever its end; known blocks stay known.
  pub record OnlyLearns (m m' : Manager p) : Type 0 where
    pub best_block : m'.best_block ≡ m.best_block
    pub head_cid : m'.head_cid ≡ m.head_cid
    pub state_root : m'.state_root ≡ m.state_root
    pub tx_pool : m'.tx_pool ≡ m.tx_pool
    pub known : (c : Cid) → has c m.known_good_blocks ≡ true → has c m'.known_good_blocks ≡ true

  OnlyLearns-refl : (m : Manager p) → OnlyLearns m m
  OnlyLearns-refl m = record {
    best_block = refl;
    head_cid = refl;
    state_root = refl;
    tx_pool = refl;
    known = λ c h. h;
  }

  pub execute_blocks-known :
      (bs : List Block) (w : World p) (known : List Cid) (c : Cid)
      → has c known ≡ true
      → has c (execute_blocks p bs w known).2 ≡ true
  unfolding execute_blocks
  execute_blocks-known [] w known c h = h
  execute_blocks-known (b ∷ bs) w known c h =
      let (r, w') = check_block_state_change_valid p b w in
      let rest : (k : Cid) → has c (execute_blocks p bs w' (k ∷ known)).2 ≡ true =
        λ k. execute_blocks-known bs w' (k ∷ known) c (ground (arith, h)) in
      elim (Outcome-cases r) [
        | inl (u, e) ↦ elim (Outcome-cases (block_cid p b)) [
          | inl (k, e') ↦ rw (e, execute_blocks, e') (rest k)
          | inr (inl (x, e')) ↦ rw (e, execute_blocks, e') h
          | inr (inr e') ↦ rw (e, execute_blocks, e') h
        ]
        | inr (inl (x, e)) ↦ rw (e, execute_blocks) h
        | inr (inr e) ↦ rw (e, execute_blocks) h
      ]

  pub validate_from-OnlyLearns :
      (base : Block) (blocks : List Block) (m : Manager p)
      → OnlyLearns m (validate_from p base blocks m).1
  unfolding validate_from
  validate_from-OnlyLearns base blocks m =
      elim (Outcome-cases (wrapping Context.load_state (load_state p m.store base.state_root))) [
        | inl (w, e) ↦
            rw (e, validate_from)
              (record {
                best_block = refl;
                head_cid = refl;
                state_root = refl;
                tx_pool = refl;
                known = execute_blocks-known blocks w m.known_good_blocks;
              })
        | inr (inl (x, e)) ↦ rw (e, validate_from) (OnlyLearns-refl m)
        | inr (inr e) ↦ rw (e, validate_from) (OnlyLearns-refl m)
      ]

  pub after_walk-OnlyLearns :
      (m : Manager p) (r : Outcome (Block × List Block)) → OnlyLearns m (after_walk p m r).1
  after_walk-OnlyLearns m (ok (base, blocks)) = validate_from-OnlyLearns base blocks m
  after_walk-OnlyLearns m (err e) = OnlyLearns-refl m
  after_walk-OnlyLearns m panic = OnlyLearns-refl m

  -- The two ways in which `validateBlock` ends: at the first test, or after the walk.
  pub validate_block_ends :
      (fuel : ℕ) (b : Block) (m : Manager p) {r : Outcome (Unit {0}) × Manager p}
      → validate_block p fuel b m ≡ some r
      → ((r.1 ≡ m) × (r.0 ≢ ok tt))
        ⊎ ((score m.best_block < score b)
            × ((o : Outcome (Block × List Block)) × (walk p m.store m.known_good_blocks fuel b []
                  ≡ some o)
                × (after_walk p m o ≡ r)))
  unfolding validate_block
  validate_block_ends fuel b m {r} h = elim (Bool-cases (leb (score b) (score m.best_block))) [
    | inl low ↦
        let ended = some-injective _ _ (rw low at h) in
        inl (ap (λ x. x.1) (sym ended), λ good. cc (good, ap (λ x. x.0) ended))
    | inr high ↦
        let (o, walked, e) =
          map-eq-some (after_walk p m) (walk p m.store m.known_good_blocks fuel b []) {b = r}
            (rw high at h) in
        inr (ground arith, (o, walked, e))
  ]

  -- The validation of a block, with any end, changes neither the head nor the pool, and forgets no
  -- known block.
  pub validate_block-OnlyLearns :
      (fuel : ℕ) (b : Block) (m : Manager p) {r : Outcome (Unit {0}) × Manager p}
      → validate_block p fuel b m ≡ some r
      → OnlyLearns m r.1
  validate_block-OnlyLearns fuel b m {r} h = elim (validate_block_ends fuel b m {r = r} h) [
    | inl (same, _) ↦ rw same (OnlyLearns-refl m)
    | inr (_, (o, _, e)) ↦ rw (← e) (after_walk-OnlyLearns m o)
  ]
