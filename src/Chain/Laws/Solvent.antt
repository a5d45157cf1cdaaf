-- ===== src/Chain/Laws/Solvent.antt =====
-- The state manager's ledgers: the current state's, and those of the known good blocks.
use toychain.Prelude.{ℕ, ◌≡◌, sym, ◌∙◌, true, some, List, [], inl, inr}
use mathlib.Core.List.{append-nil}
use mathlib.Core.Path.{subst}
use toychain.Outcome.{Outcome, ok, err, panic, Outcome-cases}
use toychain.Types.Value.{Cid}
use toychain.Types.Address.{Address}
use toychain.Types.Block.{Block}
use toychain.Platform.{Platform}
use toychain.Platform.Laws.{IsHamt, IsActorCodec, IsCid, IsBlockStore, Grows}
use toychain.Contract.World.{World, load_state}
use toychain.Contract.Laws.Supply.{IsDistinct}
use toychain.Contract.Laws.Conserve.{HasTotal}
use toychain.Chain.Manager.{Manager, block_cid, has, state_of}
use toychain.Chain.Validate.{walk, execute_blocks, validate_from, after_walk, validate_block}
use toychain.Chain.Valid.{Chain, rooted, grown}
use toychain.Chain.Laws.Valid.{walk-Chain}
use toychain.Chain.Laws.Refines.{loaded-load_state}
use toychain.Chain.Laws.Learns.{validate_from-OnlyLearns, validate_block_ends}
use toychain.Chain.Laws.Funded.{Backed, Ordinary, HasTotal-Grows, Backed-Grows}
use toychain.Chain.Laws.Replaying.{execute_blocks-last, execute_blocks-Keeps}

module _ (p : Platform) where
  -- A manager whose store has grown, with the same state and the same known blocks.
  pub record Stocked (m m' : Manager p) : Type 0 where
    pub store : Grows p m.store m'.store
    pub known : m'.known_good_blocks ≡ m.known_good_blocks
    pub root : m'.state_root ≡ m.state_root

  pub Chain-base :
      {st : p.Store} {known : List Cid} {base b : Block} {chain : List Block}
      → Chain p st known base chain b
      → (c : Cid) × (block_cid p base ≡ ok c) × (has c known ≡ true)
  Chain-base (rooted c is_cid here) = (c, is_cid, here)
  Chain-base (grown links c is_cid new found) = Chain-base links

  module _ (cids : IsCid p) where
    validate_from-known :
        (base b : Block) (m : Manager p) {chain : List Block}
        → Chain p m.store m.known_good_blocks base chain b
        → (validate_from p base chain m).0 ≡ ok tt
        → (c : Cid) × (block_cid p b ≡ ok c)
          × (has c (validate_from p base chain m).1.known_good_blocks ≡ true)
    validate_from-known base b m (rooted c is_cid here) h =
        (c, is_cid, (validate_from-OnlyLearns p base [] m).known c here)
    validate_from-known base b m (grown {bs} links c is_cid new found) h =
        elim (Outcome-cases (load_state p m.store base.state_root)) [
          | inl (w, e) ↦ (
            c,
            is_cid,
            unfold validate_from in
                rw (e, validate_from)
                  (execute_blocks-last p cids bs b w m.known_good_blocks c is_cid
                    (rw (e, validate_from) at h)),
          )
          | inr (inl (x, e)) ↦ absurd (unfold validate_from in cc (rw (e, validate_from) at h))
          | inr (inr e) ↦ absurd (unfold validate_from in cc (rw (e, validate_from) at h))
        ]

module _ (p : Platform) (contract : Address) (accounts : List Address) (sum : ℕ) where
  pub record Solvent (m : Manager p) : Type 0 where
    pub backed : Backed p contract accounts sum m.store m.known_good_blocks
    pub current : HasTotal p (state_of p m) contract accounts sum

  -- A state over the manager's store, with the manager's root.
  pub current_at :
      (m m' : Manager p)
      → Grows p m.store m'.store
      → m'.state_root ≡ m.state_root
      → HasTotal p (state_of p m) contract accounts sum
      → HasTotal p (state_of p m') contract accounts sum
  current_at m m' g same t =
      subst (λ n. HasTotal p (record { store = m'.store; root = n }) contract accounts sum)
        (sym same) (HasTotal-Grows p contract accounts sum m.store m'.store m.state_root g t)

  pub Solvent-Stocked : (m m' : Manager p) → Stocked p m m' → Solvent m → Solvent m'
  Solvent-Stocked m m' g s = record {
    backed =
        subst (Backed p contract accounts sum m'.store) (sym g.known)
          (Backed-Grows p contract accounts sum m.known_good_blocks g.store s.backed);
    current = current_at m m' g.store g.root s.current;
  }

  -- An operation that keeps the sums, if the blocks that are then known are ordinary.
  abbrev pub Sustains : Manager p → Manager p → Type 0
  Sustains m m' = Ordinary p contract accounts m'.known_good_blocks → Solvent m → Solvent m'

  pub Stocked-Sustains : (a b c : Manager p) → Stocked p a b → Sustains b c → Sustains a c
  Stocked-Sustains a b c g f ordinary s = f ordinary (Solvent-Stocked a b g s)

  module _ (laws : IsHamt p) (codec : IsActorCodec p) (cids : IsCid p) (blocks : IsBlockStore p)
      (distinct : IsDistinct accounts) where
    -- The execution of a chain from a known block on.
    validate_from-Solvent :
        (base : Block) (chain : List Block) (m : Manager p) (c : Cid)
        → block_cid p base ≡ ok c
        → has c m.known_good_blocks ≡ true
        → Ordinary p contract accounts (validate_from p base chain m).1.known_good_blocks
        → Solvent m
        → Solvent (validate_from p base chain m).1
    validate_from-Solvent base chain m c is_cid here ordinary s =
        let f = s.backed base c is_cid here in
        let w : World p = record { store = m.store; root = f.root } in
        let known = m.known_good_blocks in
        let e = loaded-load_state p m.store base.state_root f.root f.loaded in
        let ran : (validate_from p base chain m).1 ≡ record m {
          store = (execute_blocks p chain w known).1.store;
          known_good_blocks = (execute_blocks p chain w known).2;
        } =
          unfold validate_from in rw (e, validate_from) in
        let k =
          execute_blocks-Keeps p laws codec cids blocks contract accounts sum distinct chain w known
            (subst (λ (m : Manager p). Ordinary p contract accounts m.known_good_blocks) ran
              ordinary)
            s.backed f.has_total in
        subst Solvent (sym ran) (record {
          backed = k.backed;
          current =
              HasTotal-Grows p contract accounts sum m.store
                (execute_blocks p chain w known).1.store m.state_root k.extends s.current;
        })

    -- What the validation of a block leaves, and that a block that passed is known.
    pub record Validated (b : Block) (r : Outcome (Unit {0}) × Manager p) : Type 0 where
      pub solvent : Solvent r.1
      pub passed :
          r.0 ≡ ok tt → (c : Cid) × (block_cid p b ≡ ok c) × (has c r.1.known_good_blocks ≡ true)

    after_walk-Validated :
        (b : Block) (m : Manager p) (fuel : ℕ) (o : Outcome (Block × List Block))
        → walk p m.store m.known_good_blocks fuel b [] ≡ some o
        → Ordinary p contract accounts (after_walk p m o).1.known_good_blocks
        → Solvent m
        → Validated b (after_walk p m o)
    after_walk-Validated b m fuel (ok (base, bs)) walked ordinary s =
        let (chain, links, same) = walk-Chain p m.store m.known_good_blocks fuel b [] walked in
        let (c, is_cid, here) = Chain-base p links in
        let chain_is : chain ≡ bs = sym (same ∙ append-nil chain) in
        record {
          solvent = validate_from-Solvent base bs m c is_cid here ordinary s;
          passed =
              validate_from-known p cids base b m
                (subst (λ l. Chain p m.store m.known_good_blocks base l b) chain_is links);
        }
    after_walk-Validated b m fuel (err e) walked ordinary s = record {
      solvent = s;
      passed = λ h. cc h;
    }
    after_walk-Validated b m fuel panic walked ordinary s = record {
      solvent = s;
      passed = λ h. cc h;
    }

    pub validate_block-Validated :
        (fuel : ℕ) (b : Block) (m : Manager p) {r : Outcome (Unit {0}) × Manager p}
        → validate_block p fuel b m ≡ some r
        → Ordinary p contract accounts r.1.known_good_blocks
        → Solvent m
        → Validated b r
    validate_block-Validated fuel b m {r} h ordinary s =
        elim (validate_block_ends p fuel b m {r = r} h) [
          | inl (same, bad) ↦ record { solvent = rw same s; passed = λ good. absurd (bad good) }
          | inr (_, (o, walked, e)) ↦ subst (Validated b) e (
              after_walk-Validated b m fuel o walked
                (subst (λ x. Ordinary p contract accounts x.1.known_good_blocks) (sym e) ordinary)
                s)
        ]
