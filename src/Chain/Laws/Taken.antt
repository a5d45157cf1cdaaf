-- ===== src/Chain/Laws/Taken.antt =====
-- When `ProcessNewBlock` takes a valid block.
use mathlib.Core.Path.{subst}
use toychain.Prelude.{
  ℕ, ◌<◌, ◌≡◌, refl, ap, sym, ◌∙◌, true, some, List, [], ◌∷◌, ◌++◌, length, All, arith, map-some,
  ltb, inl, inr,
}
use mathlib.Core.List.{append-nil}
use toychain.Contract.World.{load_state}
use toychain.Outcome.{Outcome, ok, err, panic, Outcome-cases, wrapping}
use toychain.Exec.{continue}
use toychain.Types.Value.{Cid}
use toychain.Types.Transaction.{Transaction}
use toychain.Types.Block.{Block, score}
use toychain.Platform.{Platform}
use toychain.Platform.Laws.{IsHamt, IsCid, IsBlockStore}
use toychain.Contract.World.{World}
use toychain.Chain.Manager.{
  Manager, block_cid, add_to_dag, clear_txs, load_root, settle, set_best, drop_tx, accept_new_block,
}
use toychain.Chain.Validate.{walk, after_walk, execute_blocks, validate_from, validate_block}
use toychain.Chain.Process.{after_validation, process_new_block}
use toychain.Chain.Valid.{Chain, rooted, grown, Replays, stays, moves, IsValidBlock}
use toychain.Chain.Laws.Accept.{accept-eq-with_cid, with_cid-ok, clear_txs-SameHead, clear_txs-ok}
use toychain.Chain.Laws.Head.{IsHead}
use toychain.Chain.Laws.Learns.{validate_block_ends, validate_block-OnlyLearns}
use toychain.Chain.Laws.Process.{process_new_block-IsHead}
use toychain.Chain.Laws.Valid.{walk-Chain, execute_blocks-Replays}
use toychain.Chain.Laws.Refines.{loaded-load_state, load_state-loads, IsValidBlock-validate_block}
use toychain.Chain.Laws.Funded.{Moves-Loads}

module _ (p : Platform) where
  -- Each transaction of a list has a Cid.
  abbrev pub HasTxCids : List Transaction → Type 0
  HasTxCids = All (λ tx. (c : Cid) × (p.wrap_tx tx ≡ ok c))

  clear_txs-returns :
      (txs : List Transaction) (m : Manager p) → HasTxCids txs → (clear_txs p txs m).0 ≡ ok tt
  clear_txs-returns [] m h = unfold clear_txs in refl
  clear_txs-returns (tx ∷ txs) m h =
      let (c, e) = h.0 in
      ap (λ r. r.0) (clear_txs-ok p tx txs c m e) ∙ clear_txs-returns txs (drop_tx p c m) h.1

  -- A state that the block names.
  abbrev pub Named : p.Store → Block → Type 0
  Named st b = (n : p.Node) × (p.load st b.state_root ≡ ok n)

  settle-returns :
      (blk : Block) (m : Manager p)
      → HasTxCids blk.txs
      → Named m.store blk
      → (settle p blk m).0 ≡ ok tt
  unfolding settle load_root
  settle-returns blk m h (n, loaded) =
      let m' = (clear_txs p blk.txs m).1 in
      let same = (clear_txs-SameHead p blk.txs m).store in
      let e = clear_txs-returns blk.txs m h in
      let there = loaded-load_state p m'.store blk.state_root n (rw same loaded) in
      rw (e, continue, there, wrapping)

  accept_new_block-returns :
      (blk : Block) (m : Manager p) (c : Cid)
      → block_cid p blk ≡ ok c
      → (add_to_dag p blk m).0 ≡ ok tt
      → HasTxCids blk.txs
      → Named (add_to_dag p blk m).1.store blk
      → (accept_new_block p blk m).0 ≡ ok tt
  accept_new_block-returns blk m c is_cid added h named =
      ap (λ r. r.0) (accept-eq-with_cid p blk c m is_cid ∙ with_cid-ok p blk c m tt added)
      ∙ settle-returns blk (set_best p blk c (add_to_dag p blk m).1) h named

  module _ (laws : IsHamt p) where
    Replays-last :
        (bs : List Block) (tip : Block) {w u : World p}
        → Replays p w (bs ++ tip ∷ []) u
        → Named u.store tip
    Replays-last [] tip {u = u} (moves m (stays _)) =
        let l = Moves-Loads p laws m in (l.node, ap (p.load u.store) m.named ∙ l.loaded)
    Replays-last (b ∷ bs) tip (moves m rest) = Replays-last bs tip rest

    Chain-Named :
        {st : p.Store} {known : List Cid} {base b : Block} {chain : List Block} (n : p.Node)
        {u : World p}
        → Chain p st known base chain b
        → p.load st base.state_root ≡ ok n
        → Replays p (record { store = st; root = n }) chain u
        → (c : Cid) × (block_cid p b ≡ ok c) × Named u.store b
    Chain-Named n (rooted c is_cid here) loaded (stays u) = (c, is_cid, (n, loaded))
    Chain-Named {b = b} n (grown {bs} links c is_cid new found) loaded replays =
        (c, is_cid, Replays-last bs b replays)

    module _ (cids : IsCid p) where
      -- The Cid of a block, and the state that it names.
      abbrev Rooted : p.Store → Block → Type 0
      Rooted st b = (c : Cid) × (block_cid p b ≡ ok c) × Named st b

      validate_from-Rooted :
          (base b : Block) (chain : List Block) (m : Manager p)
          → Chain p m.store m.known_good_blocks base chain b
          → (validate_from p base chain m).0 ≡ ok tt
          → Rooted (validate_from p base chain m).1.store b
      validate_from-Rooted base b chain m links h =
          elim (Outcome-cases (load_state p m.store base.state_root)) [
            | inl (w, e) ↦
                let (n, loaded, same) = load_state-loads p m.store base.state_root w e in
                let ran : (execute_blocks p chain w m.known_good_blocks).0 ≡ ok tt =
                  unfold validate_from in rw (e, validate_from) at h in
                let replays = execute_blocks-Replays p cids chain w m.known_good_blocks ran in
                unfold validate_from in
                rw (e, validate_from)
                  (Chain-Named n links loaded (
                    subst (λ v. Replays p v chain (execute_blocks p chain w m.known_good_blocks).1)
                      (sym same) replays))
            | inr (inl (x, e)) ↦ absurd (unfold validate_from in cc (rw (e, validate_from) at h))
            | inr (inr e) ↦ absurd (unfold validate_from in cc (rw (e, validate_from) at h))
          ]

      after_walk-Rooted :
          (fuel : ℕ) (b : Block) (m : Manager p) (o : Outcome (Block × List Block))
          → walk p m.store m.known_good_blocks fuel b [] ≡ some o
          → (after_walk p m o).0 ≡ ok tt
          → Rooted (after_walk p m o).1.store b
      after_walk-Rooted fuel b m (ok (base, bs)) walked h =
          let (chain, links, same) = walk-Chain p m.store m.known_good_blocks fuel b [] walked in
          let chain_is : chain ≡ bs = sym (same ∙ append-nil chain) in
          validate_from-Rooted base b bs m
            (subst (λ l. Chain p m.store m.known_good_blocks base l b) chain_is links) h
      after_walk-Rooted fuel b m (err e) walked h = absurd (cc h)
      after_walk-Rooted fuel b m panic walked h = absurd (cc h)

      -- After a validation without an error the block's state is in the store.
      validate_block-Rooted :
          (fuel : ℕ) (b : Block) (m : Manager p) {r : Outcome (Unit {0}) × Manager p}
          → validate_block p fuel b m ≡ some r
          → r.0 ≡ ok tt
          → Rooted r.1.store b
      validate_block-Rooted fuel b m {r} h good = elim (validate_block_ends p fuel b m {r = r} h) [
        | inl (_, bad) ↦ absurd (bad good)
        | inr (_, (o, walked, e)) ↦
            subst (λ x. Rooted x.1.store b) e
              (after_walk-Rooted fuel b m o walked (ap (λ x. x.0) e ∙ good))
      ]

      -- By the laws of the HAMT, of Cids and of the block store, a valid block is taken by
      -- `ProcessNewBlock`, with more fuel than its chain has blocks, and is the head in every respect
      -- after it, if the DAG service takes it and its transactions have Cids.
      pub IsValidBlock-process_new_block :
          (blocks : IsBlockStore p) (fuel : ℕ) (b : Block) (m : Manager p) (v : IsValidBlock p m b)
          → length v.chain < fuel
          → ((st : p.Store) → (p.dag_add b st).0 ≡ ok tt)
          → HasTxCids b.txs
          → (m' : Manager p) × (process_new_block p fuel b m ≡ some (ok tt, m')) × IsHead p b m'
      IsValidBlock-process_new_block blocks fuel b m v enough added h =
          let (m1, e) = IsValidBlock-validate_block p cids fuel b m v enough in
          let (c, is_cid, (n, loaded)) = validate_block-Rooted fuel b m {r = (ok tt, m1)} e refl in
          let learns = validate_block-OnlyLearns p fuel b m {r = (ok tt, m1)} e in
          let r = accept_new_block p b m1 in
          let there : Named (add_to_dag p b m1).1.store b =
            unfold add_to_dag in (n, (blocks.add_grows b m1.store).loads b.state_root n loaded) in
          let good =
            accept_new_block-returns b m1 c is_cid (unfold add_to_dag in added m1.store) h there in
          let better : ltb (score m1.best_block) (score b) ≡ true =
            ground (arith, v.better, learns.best_block) in
          let ended : process_new_block p fuel b m ≡ some (ok tt, r.1) =
            unfold process_new_block after_validation in
            map-some (after_validation p b) (validate_block p fuel b m) (ok tt, m1) e
            ∙ ap some (rw better (ap (λ x. (x, r.1)) good)) in
          let (_, head) = process_new_block-IsHead p fuel b m {m' = r.1} ended in (r.1, ended, head)
