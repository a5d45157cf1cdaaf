-- ===== src/Chain/Laws/Process.antt =====
-- `ProcessNewBlock`: what any result of it keeps, and what success means.
use toychain.Prelude.{
  map-eq-some, ℕ, ◌≤◌, ◌<◌, ◌≡◌, ◌≢◌, ◌⊎◌, refl, sym, ◌∙◌, ap, true, some, =ᵇ-self, Bool-cases, inl,
  inr, arith, ltb,
}
use mathlib.Core.Path.{subst}
use toychain.Outcome.{Outcome, ok, err, panic}
use toychain.Types.Value.{Cid}
use toychain.Types.Block.{Block, score}
use toychain.Platform.{Platform}
use toychain.Chain.Manager.{Manager, has, block_cid, accept_new_block}
use toychain.Chain.Validate.{validate_block}
use toychain.Chain.Process.{after_validation, process_new_block}
use toychain.Chain.Laws.Accept.{Heads, kept, taken, accept_new_block-Heads}
use toychain.Chain.Laws.Head.{IsHead, accept_new_block-IsHead}
use toychain.Chain.Laws.Learns.{OnlyLearns, validate_block-OnlyLearns}

module _ (p : Platform) where
  -- The best block is one of the known good blocks.
  pub record IsAnchored (m : Manager p) : Type 0 where
    pub cid : Cid
    pub is_cid : block_cid p m.best_block ≡ ok cid
    pub known : has cid m.known_good_blocks ≡ true

  -- What `ProcessNewBlock` does after the validation.
  pub after_validation-ends :
      (blk : Block) (v : Outcome (Unit {0}) × Manager p)
      → ((after_validation p blk v).1 ≡ v.1) × ((after_validation p blk v).0 ≢ ok tt)
        ⊎ (v.0 ≡ ok tt)
          × (score v.1.best_block < score blk)
          × (after_validation p blk v ≡ accept_new_block p blk v.1)
  unfolding after_validation
  after_validation-ends blk (ok u, m) = elim (Bool-cases (ltb (score m.best_block) (score blk))) [
    | inl better ↦ inr (refl, ground arith, rw better)
    | inr worse ↦ inl (rw worse, rw worse (λ e. cc))
  ]
  after_validation-ends blk (err x, m) = inl (refl, λ e. cc)
  after_validation-ends blk (panic, m) = inl (refl, λ e. cc)

  -- The manager as the validation left it, and what `ProcessNewBlock` made of that.
  pub record Ends (blk : Block) (m : Manager p) (r : Outcome (Unit {0}) × Manager p) : Type 0 where
    pub validated : Manager p
    pub learns : OnlyLearns p m validated
    pub ends :
        (r.1 ≡ validated) × (r.0 ≢ ok tt)
        ⊎ (score validated.best_block < score blk) × (accept_new_block p blk validated ≡ r)

  pub process_new_block-Ends :
      (fuel : ℕ) (blk : Block) (m : Manager p) {r : Outcome (Unit {0}) × Manager p}
      → process_new_block p fuel blk m ≡ some r
      → Ends blk m r
  process_new_block-Ends fuel blk m {r} h =
      let (v, e, done) =
        map-eq-some (after_validation p blk) (validate_block p fuel blk m) {b = r}
          (unfold process_new_block in h) in
      record {
        validated = v.1;
        learns = validate_block-OnlyLearns p fuel blk m {r = v} e;
        ends = elim (after_validation-ends blk v) [
          | inl (same, bad) ↦
              inl (ap (λ x. x.1) (sym done) ∙ same, λ good. bad (ap (λ x. x.0) done ∙ good))
          | inr (_, higher, same) ↦ inr (higher, sym same ∙ done)
        ];
      }

  Heads-score :
      (blk : Block) {m m' : Manager p}
      → score m.best_block < score blk
      → Heads p blk m m'
      → score m.best_block ≤ score m'.best_block
  Heads-score blk higher (kept best head known) = rw best (omega arith)
  Heads-score blk higher (taken c is_cid best head known) = rw best (omega arith)

  Heads-IsAnchored :
      (blk : Block) {m m' : Manager p} → Heads p blk m m' → IsAnchored m → IsAnchored m'
  Heads-IsAnchored blk (kept best head known) h = record {
    cid = h.cid;
    is_cid = rw best h.is_cid;
    known = rw known h.known;
  }
  Heads-IsAnchored blk (taken c is_cid best head known) h = record {
    cid = c;
    is_cid = rw best is_cid;
    known = rw known (ground (arith, =ᵇ-self c));
  }

  -- Whatever block is processed, and whatever the result once the processing has ended, the best
  -- block's score is not lower than before.
  pub score_never_falls :
      (fuel : ℕ) (blk : Block) (m : Manager p) {r : Outcome (Unit {0}) × Manager p}
      → process_new_block p fuel blk m ≡ some r
      → score m.best_block ≤ score r.1.best_block
  score_never_falls fuel blk m {r} h =
      let e = process_new_block-Ends fuel blk m {r = r} h in
      let same = ap score e.learns.best_block in
      elim e.ends [
        | inl (kept_it, _) ↦ omega (arith, same, ap (λ x. score x.best_block) kept_it)
        | inr (higher, accepted) ↦ omega (
          arith,
          same,
          Heads-score blk higher (accept_new_block-Heads p blk e.validated),
          ap (λ x. score x.1.best_block) accepted,
        )
      ]

  -- If the best block is one of the known good blocks, then it is so after any block was
  -- processed, whatever the result once the processing has ended.
  pub process_new_block-IsAnchored :
      (fuel : ℕ) (blk : Block) (m : Manager p) {r : Outcome (Unit {0}) × Manager p}
      → process_new_block p fuel blk m ≡ some r
      → IsAnchored m
      → IsAnchored r.1
  process_new_block-IsAnchored fuel blk m {r} h a =
      let e = process_new_block-Ends fuel blk m {r = r} h in
      let anchored : IsAnchored e.validated = record {
        cid = a.cid;
        is_cid = rw (e.learns.best_block) (a.is_cid);
        known = e.learns.known a.cid a.known;
      } in
      elim e.ends [
        | inl (kept_it, _) ↦ rw kept_it anchored
        | inr (_, accepted) ↦
            rw (← accepted)
              (Heads-IsAnchored blk (accept_new_block-Heads p blk e.validated) anchored)
      ]

  -- A block that was processed without an error had a higher score than the best block before, and
  -- is the head after: the best block, with its Cid as the head's and known, its state loaded from
  -- its root, its transactions out of the pool, and itself published last.
  pub process_new_block-IsHead :
      (fuel : ℕ) (blk : Block) (m : Manager p) {m' : Manager p}
      → process_new_block p fuel blk m ≡ some (ok tt, m')
      → (score m.best_block < score blk) × IsHead p blk m'
  process_new_block-IsHead fuel blk m {m'} h =
      let e = process_new_block-Ends fuel blk m {r = (ok tt, m')} h in
      elim e.ends [
        | inl (_, bad) ↦ absurd (bad refl)
        | inr (higher, accepted) ↦ (
          omega (arith, higher, ap score e.learns.best_block),
          subst (λ r. IsHead p blk r.1) accepted
              (accept_new_block-IsHead p blk e.validated (ap (λ r. r.0) accepted)),
        )
      ]
