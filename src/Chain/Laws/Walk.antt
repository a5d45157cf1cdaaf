-- ===== src/Chain/Laws/Walk.antt =====
-- The walk of `validateBlock` down the chain, which has no limit of its own: the fuel that it needs.
use toychain.Prelude.{
  map-some, ℕ, zero, suc, ◌≤◌, ◌≡◌, ◌∙◌, false, some, List, [], ◌∷◌, Bool-cases, inl, inr, arith,
  leb,
}
use toychain.Outcome.{Outcome, ok, err, panic, Message, message, Outcome-cases}
use toychain.Types.Value.{Cid}
use toychain.Types.Block.{Block, score}
use toychain.Platform.{Platform}
use toychain.Chain.Manager.{Manager, block_cid, has}
use toychain.Chain.Validate.{parent_of, walk, validate_block, after_walk}
use toychain.Chain.Process.{process_new_block, after_validation}

module _ (p : Platform) (st : p.Store) (known : List Cid) where
  -- The chain of parents from a block has at most so many blocks.
  abbrev pub HasDepth : ℕ → Block → Type 0
  HasDepth zero b = ⊥
  HasDepth (suc n) b = (next : Block) → parent_of p st known b ≡ ok next → HasDepth n next

  pub walk_step :
      (fuel : ℕ) (b next : Block) (validating : List Block) (c : Cid)
      → block_cid p b ≡ ok c
      → has c known ≡ false
      → parent_of p st known b ≡ ok next
      → walk p st known (suc fuel) b validating ≡ walk p st known fuel next (b ∷ validating)
  walk_step fuel b next validating c is_cid new found = unfold walk in rw (is_cid, new, found, walk)

  -- The walk ends within as many rounds as the chain has blocks.
  pub walk_ends :
      (n fuel : ℕ) (b : Block) (validating : List Block)
      → HasDepth n b
      → n ≤ fuel
      → (r : Outcome (Block × List Block)) × (walk p st known fuel b validating ≡ some r)
  walk_ends zero fuel b validating d enough = absurd d
  walk_ends (suc n) zero b validating d enough = absurd (omega (arith, enough))
  walk_ends (suc n) (suc fuel) b validating d enough = elim (Outcome-cases (block_cid p b)) [
    | inr (inl (e, bad)) ↦ (err e, unfold walk in rw (bad, walk))
    | inr (inr bad) ↦ (panic, unfold walk in rw (bad, walk))
    | inl (c, is_cid) ↦ elim (Bool-cases (has c known)) [
      | inl here ↦ (ok (b, validating), unfold walk in rw (is_cid, here, walk))
      | inr new ↦ elim (Outcome-cases (parent_of p st known b)) [
        | inr (inl (e, bad)) ↦ (err e, unfold walk in rw (is_cid, new, bad, walk))
        | inr (inr bad) ↦ (panic, unfold walk in rw (is_cid, new, bad, walk))
        | inl (next, found) ↦
            let (r, e) = walk_ends n fuel next (b ∷ validating) (d next found) (omega arith) in
            (r, walk_step fuel b next validating c is_cid new found ∙ e)
      ]
    ]
  ]

module _ (p : Platform) where
  validate_block_returns :
      (n fuel : ℕ) (b : Block) (m : Manager p)
      → HasDepth p m.store m.known_good_blocks n b
      → n ≤ fuel
      → (r : Outcome (Unit {0}) × Manager p) × (validate_block p fuel b m ≡ some r)
  unfolding validate_block
  validate_block_returns n fuel b m d enough =
      elim (Bool-cases (leb (score b) (score m.best_block))) [
        | inl low ↦ ((err (message Message.not_better), m), rw low)
        | inr high ↦
            let (r, e) = walk_ends p m.store m.known_good_blocks n fuel b [] d enough in
            (after_walk p m r, rw (high, e))
      ]

  -- A block whose chain of parents has at most as many blocks as there is fuel is processed to an end.
  pub process_new_block_returns :
      (n fuel : ℕ) (b : Block) (m : Manager p)
      → HasDepth p m.store m.known_good_blocks n b
      → n ≤ fuel
      → (r : Outcome (Unit {0}) × Manager p) × (process_new_block p fuel b m ≡ some r)
  unfolding process_new_block
  process_new_block_returns n fuel b m d enough =
      let (r, e) = validate_block_returns n fuel b m d enough in
      (after_validation p b r, map-some (after_validation p b) (validate_block p fuel b m) r e)
