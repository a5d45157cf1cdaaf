-- ===== src/Chain/Laws/Replaying.antt =====
-- The loop of `validateBlock` that executes blocks: it marks only blocks as known whose states have
-- the sum.
use toychain.Prelude.{◌≡◌, sym, ◌∙◌, ℕ, true, some, List, [], ◌∷◌, ◌++◌, inl, inr, arith, =ᵇ-self}
use mathlib.Core.Path.{subst}
use toychain.Outcome.{Outcome, ok, ok_injective, Outcome-cases}
use toychain.Exec.{◌>>=◌, lift, >>=-relates}
use toychain.Types.Value.{Cid}
use toychain.Types.Address.{Address}
use toychain.Types.Block.{Block}
use toychain.Platform.{Platform}
use toychain.Platform.Laws.{IsHamt, IsActorCodec, IsCid, IsBlockStore, Grows-refl}
use toychain.Contract.World.{World}
use toychain.Contract.Execute.{apply_transactions, flush_state}
use toychain.Contract.Laws.Supply.{IsDistinct}
use toychain.Contract.Laws.Conserve.{HasTotal}
use toychain.Contract.Laws.Growing.{
  Extends, Extends-trans, flush_state-Extends, apply_transactions-Extends,
}
use toychain.Chain.Manager.{block_cid, has}
use toychain.Chain.Validate.{check_block_state_change_valid, execute_blocks, matches_root}
use toychain.Chain.Laws.Money.{Moves-HasTotal}
use toychain.Chain.Laws.Valid.{check-Moves, execute_step, execute_blocks-cons}
use toychain.Chain.Laws.Learns.{execute_blocks-known}
use toychain.Chain.Laws.Funded.{Backed, Ordinary, Backed-Grows, Backed-cons, Moves-Funded}

module _ (p : Platform) (cids : IsCid p) where
  -- Where the loop came to its end, the Cid of its last block is known.
  pub execute_blocks-last :
      (bs : List Block) (tip : Block) (w : World p) (known : List Cid) (c : Cid)
      → block_cid p tip ≡ ok c
      → (execute_blocks p (bs ++ tip ∷ []) w known).0 ≡ ok tt
      → has c (execute_blocks p (bs ++ tip ∷ []) w known).2 ≡ true
  execute_blocks-last [] tip w known c is_cid h =
      let w' = (check_block_state_change_valid p tip w).1 in
      let (_, (k, is_k, step)) = execute_blocks-cons p cids tip [] w known h in
      rw step (
        execute_blocks-known p [] w' (k ∷ known) c
          (ground (arith, =ᵇ-self c, ok_injective (sym is_k ∙ is_cid))))
  execute_blocks-last (b ∷ bs) tip w known c is_cid h =
      let w' = (check_block_state_change_valid p b w).1 in
      let (_, (k, _, step)) = execute_blocks-cons p cids b (bs ++ tip ∷ []) w known h in
      rw step (execute_blocks-last bs tip w' (k ∷ known) c is_cid (rw step at h))

module _ (p : Platform) (laws : IsHamt p) (codec : IsActorCodec p) where
  pub check-Extends :
      (b : Block) (w : World p) → Extends p w (check_block_state_change_valid p b w).1
  unfolding check_block_state_change_valid
  check-Extends b =
      let test =
        λ (c : Cid). lift (p.equals (some c) b.state_root) >>= λ same. lift (matches_root p same) in
      >>=-relates (Extends p) (apply_transactions p b.txs) (λ _. flush_state p >>= test)
        (Extends-trans p) (apply_transactions-Extends p laws codec b.txs)
        (λ _.
          >>=-relates (Extends p) (flush_state p) test (Extends-trans p)
            (flush_state-Extends p laws codec)
            (λ c.
              >>=-relates (Extends p) (lift (p.equals (some c) b.state_root))
                (λ same. lift (matches_root p same)) (Extends-trans p) (λ w. Grows-refl p w.store)
                (λ _ w. Grows-refl p w.store)))

  module _ (cids : IsCid p) (blocks : IsBlockStore p) (contract : Address) (accounts : List Address)
      (sum : ℕ) (distinct : IsDistinct accounts) where
    -- The loop started in `w` and came to `r`.
    pub record Keeps (w : World p) (r : Outcome (Unit {0}) × World p × List Cid) : Type 0 where
      pub extends : Extends p w r.1
      pub backed : Backed p contract accounts sum r.1.store r.2

    pub execute_blocks-Keeps :
        (bs : List Block) (w : World p) (known : List Cid)
        → Ordinary p contract accounts (execute_blocks p bs w known).2
        → Backed p contract accounts sum w.store known
        → HasTotal p w contract accounts sum
        → Keeps w (execute_blocks p bs w known)
    execute_blocks-Keeps [] w known ordinary h t =
        unfold execute_blocks in record { extends = Grows-refl p w.store; backed = h }
    execute_blocks-Keeps (b ∷ bs) w known ordinary h t =
        let (r, w') = check_block_state_change_valid p b w in
        let grown = check-Extends b w in
        let later = Backed-Grows p contract accounts sum known grown h in
        let stop : (o : Outcome (Unit {0})) → Keeps w (o, w', known) =
          λ o. record { extends = grown; backed = later } in
        elim (Outcome-cases r) [
          | inr (inl (x, e)) ↦ unfold execute_blocks in rw (e, execute_blocks) (stop _)
          | inr (inr e) ↦ unfold execute_blocks in rw (e, execute_blocks) (stop _)
          | inl (u, e) ↦ elim (Outcome-cases (block_cid p b)) [
            | inr (inl (x, e')) ↦ unfold execute_blocks in rw (e, execute_blocks, e') (stop _)
            | inr (inr e') ↦ unfold execute_blocks in rw (e, execute_blocks, e') (stop _)
            | inl (c, e') ↦
                let step = execute_step p cids b bs w known c e e' in
                let ends : Ordinary p contract accounts (execute_blocks p bs w' (c ∷ known)).2 =
                  subst (λ x. Ordinary p contract accounts x.2) step ordinary in
                let own =
                  ends b c e'
                    (execute_blocks-known p bs w' (c ∷ known) c (ground (arith, =ᵇ-self c))) in
                let moved = check-Moves p cids b w e in
                let funded =
                  Moves-Funded p contract accounts sum laws codec distinct w w' b moved own t in
                let rest =
                  execute_blocks-Keeps bs w' (c ∷ known) ends
                    (Backed-cons p contract accounts sum known b c blocks e' funded later)
                    (Moves-HasTotal p laws codec contract accounts sum distinct w w' b moved own
                      t) in
                rw step (record {
                  extends =
                      Extends-trans p w w' (execute_blocks p bs w' (c ∷ known)).1 grown
                        rest.extends;
                  backed = rest.backed;
                })
          ]
        ]
