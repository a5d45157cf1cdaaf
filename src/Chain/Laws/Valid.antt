-- ===== src/Chain/Laws/Valid.antt =====
-- `validateBlock` against the predicate of valid blocks.
use toychain.Prelude.{
  ℕ, zero, suc, ◌<◌, ◌≡◌, refl, sym, ap, ◌∙◌, Bool, true, false, Option, none, some, List, [], ◌∷◌,
  ◌++◌, append_assoc, Bool-cases, inl, inr, arith, length, length-append, All, =ᵇ→eq, ◌⊎◌, ◌≢◌,
}
use mathlib.Core.Option.{none-ne-some}
use mathlib.Core.Path.{subst}
use toychain.Outcome.{Outcome, ok, Outcome-cases}
use toychain.Exec.{◌>>=◌, >>=-eq-ok, lift}
use toychain.Types.Value.{Cid}
use toychain.Types.Block.{Block}
use toychain.Platform.{Platform}
use toychain.Platform.Laws.{IsCid}
use toychain.Contract.World.{World}
use toychain.Contract.Execute.{apply_transactions, flush_state}
use toychain.Chain.Manager.{block_cid, has}
use toychain.Chain.Validate.{
  parent_of, fetch_block, walk, execute_blocks, check_block_state_change_valid, matches_root,
}
use toychain.Chain.Laws.Walk.{walk_step}
use toychain.Chain.Laws.Mining.{check_passes}
use toychain.Chain.Valid.{Chain, rooted, grown, Moves, Replays, stays, moves}

walk_injective :
    {b base : Block} {v bs : List Block}
    → ◌≡◌ {A = Option (Outcome (Block × List Block))} (some (ok (b, v))) (some (ok (base, bs)))
    → (b ≡ base) × (v ≡ bs)
walk_injective h = (cc, cc)

module _ (p : Platform) (st : p.Store) (known : List Cid) where
  parent_of-fetch_block :
      (b next : Block) → parent_of p st known b ≡ ok next → fetch_block p st b.parent ≡ ok next
  unfolding parent_of
  parent_of-fetch_block b next h = ground (arith, h)

  fetch_block-parent_of :
      (b next : Block) → fetch_block p st b.parent ≡ ok next → parent_of p st known b ≡ ok next
  unfolding parent_of
  fetch_block-parent_of b next h = rw h

  walk_known :
      (fuel : ℕ) (b : Block) (above : List Block) (c : Cid)
      → block_cid p b ≡ ok c
      → has c known ≡ true
      → walk p st known (suc fuel) b above ≡ some (ok (b, above))
  walk_known fuel b above c is_cid here = unfold walk in rw (is_cid, here, walk)

  -- A walk that came to an end found a known block, or went on to the parent.
  walk_cases :
      (fuel : ℕ) (b : Block) (above : List Block) {r : Block × List Block}
      → walk p st known (suc fuel) b above ≡ some (ok r)
      → (c : Cid) × (block_cid p b ≡ ok c)
        × ((has c known ≡ true)
            ⊎ ((has c known ≡ false)
                × ((next : Block) × (parent_of p st known b ≡ ok next)
                    × (walk p st known fuel next (b ∷ above) ≡ some (ok r)))))
  walk_cases fuel b above {r} h = elim (Outcome-cases (block_cid p b)) [
    | inr (inl (e, bad)) ↦ absurd (unfold walk in cc (rw (bad, walk) at h))
    | inr (inr bad) ↦ absurd (unfold walk in cc (rw (bad, walk) at h))
    | inl (c, is_cid) ↦ elim (Bool-cases (has c known)) [
      | inl here ↦ (c, is_cid, inl here)
      | inr new ↦ elim (Outcome-cases (parent_of p st known b)) [
        | inr (inl (e, bad)) ↦ absurd (unfold walk in cc (rw (is_cid, new, bad, walk) at h))
        | inr (inr bad) ↦ absurd (unfold walk in cc (rw (is_cid, new, bad, walk) at h))
        | inl (next, found) ↦ (
          c,
          is_cid,
          inr (
            new,
            (next, found, sym (walk_step p st known fuel b next above c is_cid new found) ∙ h),
          ),
        )
      ]
    ]
  ]

  walk-zero :
      (b : Block) (above : List Block) {r : Outcome (Block × List Block)}
      → walk p st known zero b above ≢ some r
  unfolding walk
  walk-zero b above {r} h = none-ne-some r h

  -- A walk that came to a known block followed a chain.
  pub walk-Chain :
      (fuel : ℕ) (b : Block) (above : List Block) {base : Block} {bs : List Block}
      → walk p st known fuel b above ≡ some (ok (base, bs))
      → (chain : List Block) × Chain p st known base chain b × (bs ≡ chain ++ above)
  walk-Chain zero b above h = absurd (walk-zero b above h)
  walk-Chain (suc fuel) b above {base} {bs} h =
      let (c, is_cid, how) = walk_cases fuel b above {r = (base, bs)} h in
      elim how [
        | inl here ↦
            let (same, rest) = walk_injective (sym (walk_known fuel b above c is_cid here) ∙ h) in
            ([], subst (λ x. Chain p st known x [] b) same (rooted c is_cid here), sym rest)
        | inr (new, (next, found, e)) ↦
            let (chain, links, same) = walk-Chain fuel next (b ∷ above) {base = base} {bs = bs} e in
            (
              chain ++ b ∷ [],
              grown links c is_cid new (parent_of-fetch_block b next found),
              same ∙ sym (append_assoc chain (b ∷ []) above),
            )
      ]

  -- A chain is what a walk with enough fuel finds.
  pub Chain-walk :
      (base b : Block) {chain : List Block}
      → Chain p st known base chain b
      → (fuel : ℕ) (above : List Block) → length chain < fuel
      → walk p st known fuel b above ≡ some (ok (base, chain ++ above))
  Chain-walk base b (rooted c is_cid here) zero above enough = absurd (omega (arith, enough))
  Chain-walk base b (rooted c is_cid here) (suc fuel) above enough =
      walk_known fuel b above c is_cid here
  Chain-walk base b (grown links c is_cid new found) zero above enough =
      absurd (omega (arith, enough))
  Chain-walk base b (grown {bs} {below} links c is_cid new found) (suc fuel) above enough =
      walk_step p st known fuel b below above c is_cid new (fetch_block-parent_of b below found)
      ∙ Chain-walk base below links fuel (b ∷ above)
          (omega (arith, length-append bs (b ∷ []), enough))
      ∙ ap (λ l. some (ok (base, l))) (sym (append_assoc bs (b ∷ []) above))

module _ (p : Platform) (cids : IsCid p) where
  same_root : (c : Cid) (root : Option Cid) → p.equals (some c) root ≡ ok true → root ≡ some c
  same_root c none h = absurd (cids.equals_none c h)
  same_root c (some d) h = cc (=ᵇ→eq c d (ground (arith, h, cids.equals_some c d)))

  matches_root-true : (b : Bool) → matches_root p b ≡ ok tt → b ≡ true
  matches_root-true true h = refl
  matches_root-true false h = absurd (cc)

  pub check-Moves :
      (b : Block) (w : World p)
      → (check_block_state_change_valid p b w).0 ≡ ok tt
      → Moves p w b (check_block_state_change_valid p b w).1
  unfolding check_block_state_change_valid
  check-Moves b w h =
      let test =
        λ (c : Cid). lift (p.equals (some c) b.state_root) >>= λ same. lift (matches_root p same) in
      let (u, e1, r1) =
        >>=-eq-ok (apply_transactions p b.txs) (λ _. flush_state p >>= test) w {b = tt} h in
      let v = (apply_transactions p b.txs w).1 in
      let (c, e2, r2) = >>=-eq-ok (flush_state p) test v {b = tt} (cc (h, r1)) in
      let w' = (flush_state p v).1 in
      let (same, e3, r3) =
        >>=-eq-ok (lift (p.equals (some c) b.state_root)) (λ same. lift (matches_root p same)) w'
          {b = tt} (cc (h, r1, r2)) in
      let matched : matches_root p same ≡ ok tt = ap (λ x. x.0) (sym (r1 ∙ r2 ∙ r3)) ∙ h in
      let good = matches_root-true same matched in
      subst (Moves p w b) (ap (λ x. x.1) (sym (r1 ∙ r2 ∙ r3))) (record {
        ran = v;
        runs = ap (λ r. (r, v)) e1;
        root = c;
        flushes = ap (λ r. (r, w')) e2;
        named = same_root c b.state_root (rw good at e3);
      })

  Moves-check :
      (b : Block) (w w' : World p)
      → Moves p w b w'
      → check_block_state_change_valid p b w ≡ (ok tt, w')
  Moves-check b w w' m =
      check_passes p cids b w m.ran m.root m.runs (ap (λ x. x.0) m.flushes) m.named
      ∙ ap (λ x. (ok tt, x.1)) m.flushes

  pub execute_step :
      (b : Block) (bs : List Block) (w : World p) (known : List Cid) (c : Cid)
      → (check_block_state_change_valid p b w).0 ≡ ok tt
      → block_cid p b ≡ ok c
      → execute_blocks p (b ∷ bs) w known
        ≡ execute_blocks p bs (check_block_state_change_valid p b w).1 (c ∷ known)
  execute_step b bs w known c passed is_cid =
      unfold execute_blocks in rw (passed, execute_blocks, is_cid)

  -- Where the loop over some blocks came to its end, the first one passed and got known, and the loop
  -- over the others came to its end.
  pub execute_blocks-cons :
      (b : Block) (bs : List Block) (w : World p) (known : List Cid)
      → (execute_blocks p (b ∷ bs) w known).0 ≡ ok tt
      → Moves p w b (check_block_state_change_valid p b w).1
        × ((c : Cid) × (block_cid p b ≡ ok c)
            × (execute_blocks p (b ∷ bs) w known
                ≡ execute_blocks p bs (check_block_state_change_valid p b w).1 (c ∷ known)))
  execute_blocks-cons b bs w known h =
      elim (Outcome-cases (check_block_state_change_valid p b w).0) [
        | inr (inl (x, e)) ↦ absurd (unfold execute_blocks in cc (rw (e, execute_blocks) at h))
        | inr (inr e) ↦ absurd (unfold execute_blocks in cc (rw (e, execute_blocks) at h))
        | inl (u, e) ↦ elim (Outcome-cases (block_cid p b)) [
          | inr (inl (x, e')) ↦
              absurd (unfold execute_blocks in cc (rw (e, e', execute_blocks) at h))
          | inr (inr e') ↦ absurd (unfold execute_blocks in cc (rw (e, e', execute_blocks) at h))
          | inl (c, e') ↦ (check-Moves b w e, (c, e', execute_step b bs w known c e e'))
        ]
      ]

  pub execute_blocks-Replays :
      (bs : List Block) (w : World p) (known : List Cid)
      → (execute_blocks p bs w known).0 ≡ ok tt
      → Replays p w bs (execute_blocks p bs w known).1
  execute_blocks-Replays [] w known h = unfold execute_blocks in stays w
  execute_blocks-Replays (b ∷ bs) w known h =
      let w' = (check_block_state_change_valid p b w).1 in
      let (m, (c, _, step)) = execute_blocks-cons b bs w known h in
      rw step (moves m (execute_blocks-Replays bs w' (c ∷ known) (rw step at h)))

  abbrev pub HasCid : Block → Type 0
  HasCid b = (c : Cid) × (block_cid p b ≡ ok c)

  All-append : (xs ys : List Block) → All HasCid xs → All HasCid ys → All HasCid (xs ++ ys)
  All-append [] ys hx hy = hy
  All-append (x ∷ xs) ys hx hy = (hx.0, All-append xs ys hx.1 hy)

  pub Chain-HasCid :
      (st : p.Store) (known : List Cid) (base b : Block) {chain : List Block}
      → Chain p st known base chain b
      → All HasCid chain
  Chain-HasCid st known base b (rooted c is_cid here) = tt
  Chain-HasCid st known base b (grown {bs} {below} links c is_cid new found) =
      All-append bs (b ∷ []) (Chain-HasCid st known base below links) ((c, is_cid), tt)

  pub Replays-execute_blocks :
      {w u : World p} {bs : List Block}
      → Replays p w bs u
      → All HasCid bs
      → (known : List Cid) → (execute_blocks p bs w known).0 ≡ ok tt
  Replays-execute_blocks (stays w) h known = unfold execute_blocks in refl
  Replays-execute_blocks (moves {w} {v} {u} {b} {bs} m rest) h known =
      let (c, is_cid) = h.0 in
      let passed = Moves-check b w v m in
      rw (execute_step b bs w known c (ap (λ x. x.0) passed) is_cid, passed)
        (Replays-execute_blocks rest h.1 (c ∷ known))
