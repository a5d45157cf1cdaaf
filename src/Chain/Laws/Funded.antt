-- ===== src/Chain/Laws/Funded.antt =====
-- The states that the known good blocks name: each has a ledger with the same sum.
use toychain.Prelude.{
  ◌≡◌, ap, sym, ◌∙◌, ℕ, true, List, ◌∷◌, ◌=ᵇ◌, Bool-cases, inl, inr, arith, =ᵇ→eq,
}
use mathlib.Core.Path.{subst}
use toychain.Outcome.{ok, Outcome-cases}
use toychain.Types.Value.{Cid}
use toychain.Types.Address.{Address}
use toychain.Types.Block.{Block}
use toychain.Platform.{Platform}
use toychain.Platform.Laws.{IsHamt, IsActorCodec, IsBlockStore, Grows}
use toychain.Contract.World.{World}
use toychain.Contract.Laws.Supply.{IsDistinct}
use toychain.Contract.Laws.Conserve.{HasTotal}
use toychain.Contract.Laws.Loads.{Loads, flush_state-Loads}
use toychain.Contract.Laws.Flushed.{Answers-HasTotal}
use toychain.Chain.Manager.{block_cid, has}
use toychain.Chain.Valid.{Moves}
use toychain.Chain.Laws.Money.{IsOrdinaryBlock, ran-HasTotal}

module _ (p : Platform) where
  pub block_cid-wrap : (b : Block) (c : Cid) → block_cid p b ≡ ok c → p.wrap_block b ≡ ok c
  block_cid-wrap b c h = elim (Outcome-cases (p.wrap_block b)) [
    | inl (d, e) ↦ e ∙ (unfold block_cid in rw (e, block_cid) at h)
    | inr (inl (x, e)) ↦ absurd (unfold block_cid in cc (rw (e, block_cid) at h))
    | inr (inr e) ↦ absurd (unfold block_cid in cc (rw (e, block_cid) at h))
  ]

  -- The state that a block left can be loaded from the Cid that the block names.
  pub Moves-Loads :
      (laws : IsHamt p) {w w' : World p} {b : Block} (m : Moves p w b w')
      → Loads p m.ran.store m.ran.root w'.store m.root
  Moves-Loads laws m =
      subst (λ r. Loads p m.ran.store m.ran.root r.1.store m.root) m.flushes
        (flush_state-Loads p laws m.ran m.root (ap (λ r. r.0) m.flushes))

module _ (p : Platform) (contract : Address) (accounts : List Address) where
  -- Every block with a known Cid has ordinary transactions only.
  abbrev pub Ordinary : List Cid → Type 0
  Ordinary known =
      (b : Block) (c : Cid)
      → block_cid p b ≡ ok c
      → has c known ≡ true
      → IsOrdinaryBlock contract accounts b

module _ (p : Platform) (contract : Address) (accounts : List Address) (sum : ℕ) where
  -- The state that a block names is in the store, and its ledger has the sum.
  pub record Funded (st : p.Store) (b : Block) : Type 0 where
    pub root : p.Node
    pub loaded : p.load st b.state_root ≡ ok root
    pub has_total : HasTotal p (record { store = st; root = root }) contract accounts sum

  -- Every block with a known Cid has such a state.
  abbrev pub Backed : p.Store → List Cid → Type 0
  Backed st known = (b : Block) (c : Cid) → block_cid p b ≡ ok c → has c known ≡ true → Funded st b

  pub HasTotal-Grows :
      (st st' : p.Store) (n : p.Node)
      → Grows p st st'
      → HasTotal p (record { store = st; root = n }) contract accounts sum
      → HasTotal p (record { store = st'; root = n }) contract accounts sum
  HasTotal-Grows st st' n g t =
      Answers-HasTotal p (record { store = st; root = n }) (record { store = st'; root = n })
        contract accounts sum (record { of_root = g.finds n; grows = g }) t

  pub Funded-Grows : {st st' : p.Store} {b : Block} → Grows p st st' → Funded st b → Funded st' b
  Funded-Grows {st} {st'} {b} g f = record {
    root = f.root;
    loaded = g.loads b.state_root f.root f.loaded;
    has_total = HasTotal-Grows st st' f.root g f.has_total;
  }

  pub Backed-Grows :
      {st st' : p.Store} (known : List Cid) → Grows p st st' → Backed st known → Backed st' known
  Backed-Grows known g h b c is_cid found = Funded-Grows g (h b c is_cid found)

  -- A block that is known by the Cid of a funded one names the same state.
  pub Backed-cons :
      {st : p.Store} (known : List Cid) (blk : Block) (k : Cid)
      → IsBlockStore p
      → block_cid p blk ≡ ok k
      → Funded st blk
      → Backed st known
      → Backed st (k ∷ known)
  Backed-cons {st} known blk k blocks is_k f h b c is_cid found = elim (Bool-cases (k =ᵇ c)) [
    | inl same ↦
        let one : block_cid p b ≡ ok k = is_cid ∙ ap ok (sym (=ᵇ→eq k c same)) in
        let state =
          blocks.same_state blk b k (block_cid-wrap p blk k is_k) (block_cid-wrap p b k one) in
        record {
          root = f.root;
          loaded = ap (p.load st) (sym state) ∙ f.loaded;
          has_total = f.has_total;
        }
    | inr other ↦ h b c is_cid (ground (arith, found, other))
  ]

  module _ (laws : IsHamt p) (codec : IsActorCodec p) (distinct : IsDistinct accounts) where
    -- A block of ordinary transactions that moved a funded state names a funded state.
    pub Moves-Funded :
        (w w' : World p) (b : Block)
        → Moves p w b w'
        → IsOrdinaryBlock contract accounts b
        → HasTotal p w contract accounts sum
        → Funded w'.store b
    Moves-Funded w w' b m ordinary t =
        let l = Moves-Loads p laws m in
        record {
          root = l.node;
          loaded = ap (p.load w'.store) m.named ∙ l.loaded;
          has_total =
              Answers-HasTotal p m.ran (record { store = w'.store; root = l.node }) contract
                accounts sum (record { of_root = λ k _. l.same k; grows = l.grows })
                (ran-HasTotal p laws codec contract accounts sum distinct w w' b m ordinary t);
        }
