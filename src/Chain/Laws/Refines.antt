-- ===== src/Chain/Laws/Refines.antt =====
-- `validateBlock` and the predicate `IsValidBlock`, one against the other.
use toychain.Prelude.{
  map-eq-some, map-some, ℕ, ◌<◌, ◌≡◌, ap, sym, ◌∙◌, false, Option, some, List, [], Bool-cases, inl,
  inr, arith, leb, length,
}
use mathlib.Core.List.{append-nil}
use mathlib.Core.Path.{subst}
use toychain.Outcome.{ok_injective, Outcome, ok, err, panic, Outcome-cases}
use toychain.Types.Value.{Cid}
use toychain.Types.Block.{Block, score}
use toychain.Platform.{Platform}
use toychain.Platform.Laws.{IsCid}
use toychain.Contract.World.{World, load_state}
use toychain.Chain.Manager.{Manager}
use toychain.Chain.Validate.{walk, execute_blocks, validate_from, validate_block, after_walk}
use toychain.Chain.Valid.{Replays, IsValidBlock}
use toychain.Chain.Laws.Valid.{
  walk-Chain, Chain-walk, Chain-HasCid, execute_blocks-Replays, Replays-execute_blocks,
}

module _ (p : Platform) where
  -- A state that was loaded is the loaded root over the same store.
  pub load_state-loads :
      (st : p.Store) (c : Option Cid) (w : World p)
      → load_state p st c ≡ ok w
      → (n : p.Node) × (p.load st c ≡ ok n) × (record { store = st; root = n } ≡ w)
  unfolding load_state
  load_state-loads st c w h = elim (Outcome-cases (p.load st c)) [
    | inl (n, e) ↦ (n, e, ok_injective (rw (e, load_state) at h))
    | inr (inl (x, e)) ↦ absurd (cc (rw (e, load_state) at h))
    | inr (inr e) ↦ absurd (cc (rw (e, load_state) at h))
  ]

  pub loaded-load_state :
      (st : p.Store) (c : Option Cid) (n : p.Node)
      → p.load st c ≡ ok n
      → load_state p st c ≡ ok (record { store = st; root = n })
  unfolding load_state
  loaded-load_state st c n e = rw (e, load_state)

module _ (p : Platform) (cids : IsCid p) where
  -- What a `validate_from` that returned no error has loaded and replayed.
  validate_from-Replays :
      (base : Block) (chain : List Block) (m : Manager p)
      → (validate_from p base chain m).0 ≡ ok tt
      → (n : p.Node) × (p.load m.store base.state_root ≡ ok n)
        × ((w : World p) × Replays p (record { store = m.store; root = n }) chain w)
  validate_from-Replays base chain m h =
      elim (Outcome-cases (load_state p m.store base.state_root)) [
        | inl (w, e) ↦
            let (n, loaded, same) = load_state-loads p m.store base.state_root w e in
            let ran : (execute_blocks p chain w m.known_good_blocks).0 ≡ ok tt =
              unfold validate_from in rw (e, validate_from) at h in
            (
              n,
              loaded,
              (
                (execute_blocks p chain w m.known_good_blocks).1,
                subst (λ v. Replays p v chain (execute_blocks p chain w m.known_good_blocks).1)
                    (sym same) (execute_blocks-Replays p cids chain w m.known_good_blocks ran),
              ),
            )
        | inr (inl (x, e)) ↦ absurd (unfold validate_from in cc (rw (e, validate_from) at h))
        | inr (inr e) ↦ absurd (unfold validate_from in cc (rw (e, validate_from) at h))
      ]

  Replays-validate_from :
      (base : Block) (chain : List Block) (m : Manager p) (n : p.Node)
      → p.load m.store base.state_root ≡ ok n
      → (execute_blocks p chain (record { store = m.store; root = n }) m.known_good_blocks).0
        ≡ ok tt
      → (validate_from p base chain m).0 ≡ ok tt
  Replays-validate_from base chain m n loaded ran =
      let state = loaded-load_state p m.store base.state_root n loaded in
      unfold validate_from in rw (state, validate_from) ran

  from_walk :
      (fuel : ℕ) (b : Block) (m : Manager p) (o : Outcome (Block × List Block))
      → walk p m.store m.known_good_blocks fuel b [] ≡ some o
      → score m.best_block < score b
      → (after_walk p m o).0 ≡ ok tt
      → IsValidBlock p m b
  from_walk fuel b m (ok (base, found)) walked higher good =
      let (chain, links, same) =
        walk-Chain p m.store m.known_good_blocks fuel b [] {base = base} {bs = found} walked in
      let (n, loaded, (w, replays)) = validate_from-Replays base found m good in
      record {
        base = base;
        chain = chain;
        start = n;
        last = w;
        better = higher;
        links = links;
        loads = loaded;
        replays =
            subst (λ l. Replays p (record { store = m.store; root = n }) l w)
              (same ∙ append-nil chain) replays;
      }
  from_walk fuel b m (err e) walked higher good = absurd (cc good)
  from_walk fuel b m panic walked higher good = absurd (cc good)

  -- Where Cids are compared as bytes, a block that `validateBlock` accepts is valid: it has a higher
  -- score than the best block, and a chain of parents down to a known good block, from whose state
  -- the blocks of the chain run one after the other to the state that each of them names.
  pub validate_block-IsValidBlock :
      (fuel : ℕ) (b : Block) (m : Manager p) {m' : Manager p}
      → validate_block p fuel b m ≡ some (ok tt, m')
      → IsValidBlock p m b
  validate_block-IsValidBlock fuel b m {m'} h =
      elim (Bool-cases (leb (score b) (score m.best_block))) [
        | inl low ↦ absurd (unfold validate_block in cc (rw low at h))
        | inr high ↦
            let (o, walked, end) =
              map-eq-some (after_walk p m) (walk p m.store m.known_good_blocks fuel b [])
                {b = (ok tt, m')} (unfold validate_block in rw high at h) in
            from_walk fuel b m o walked (ground arith) (ap (λ x. x.0) end)
      ]

  validate_block_walks :
      (fuel : ℕ) (b : Block) (m : Manager p) {o : Outcome (Block × List Block)}
      → score m.best_block < score b
      → walk p m.store m.known_good_blocks fuel b [] ≡ some o
      → validate_block p fuel b m ≡ some (after_walk p m o)
  validate_block_walks fuel b m {o} higher walked =
      let high : leb (score b) (score m.best_block) ≡ false = ground arith in
      unfold validate_block in
      rw high (map-some (after_walk p m) (walk p m.store m.known_good_blocks fuel b []) o walked)

  -- Where Cids are compared as bytes, a valid block is accepted by `validateBlock`, with more fuel than
  -- its chain has blocks.
  pub IsValidBlock-validate_block :
      (fuel : ℕ) (b : Block) (m : Manager p) (v : IsValidBlock p m b)
      → length v.chain < fuel
      → (m' : Manager p) × (validate_block p fuel b m ≡ some (ok tt, m'))
  IsValidBlock-validate_block fuel b m v enough =
      let found = Chain-walk p m.store m.known_good_blocks v.base b v.links fuel [] enough in
      let ran =
        Replays-execute_blocks p cids v.replays
          (Chain-HasCid p cids m.store m.known_good_blocks v.base b v.links) m.known_good_blocks in
      let r = validate_from p v.base v.chain m in
      let good = Replays-validate_from v.base v.chain m v.start v.loads ran in
      let whole : validate_from p v.base v.chain m ≡ (ok tt, r.1) = ap (λ x. (x, r.1)) good in
      (
        r.1,
        validate_block_walks fuel b m v.better
              (found ∙ ap (λ l. some (ok (v.base, l))) (append-nil v.chain))
            ∙ ap some whole,
      )
