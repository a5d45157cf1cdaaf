-- ===== src/Core/Laws/Hello.antt =====
-- `handleHelloStream` of core/protocol.go, on what `HelloPeer` of another node sends.
use toychain.Prelude.{ℕ, ◌≤◌, ◌<◌, ◌≡◌, refl, ap, ◌∙◌, Option, none, some, arith, length, map-some}
use toychain.Outcome.{ok}
use toychain.Types.Value.{Cid}
use toychain.Types.Block.{Block, score}
use toychain.Platform.{Platform}
use toychain.Platform.Laws.{IsHamt, IsCid, IsBlockStore}
use toychain.Chain.Manager.{Manager}
use toychain.Chain.Process.{process_new_block, inform, to_miner}
use toychain.Chain.Valid.{IsValidBlock}
use toychain.Chain.Laws.Head.{IsHead}
use toychain.Chain.Laws.Taken.{HasTxCids, IsValidBlock-process_new_block}
use toychain.Core.Node.{hello, handle_head, handle_hello}

module _ (p : Platform) where
  low_head :
      (fuel : ℕ) (head : Option Cid) (height : ℕ) (m : Manager p)
      → height ≤ score m.best_block
      → handle_head p fuel head height m ≡ some (ok none, m)
  low_head fuel none height m low = refl
  low_head fuel (some c) height m low = ground (arith, low)

  -- The hello message of a node whose best block is no better is taken in with no change, and nothing
  -- is sent to the miner.
  pub hello_ignored :
      (fuel : ℕ) (other m : Manager p)
      → score other.best_block ≤ score m.best_block
      → handle_hello p fuel (hello p other) m ≡ some (ok none, m)
  unfolding handle_hello hello
  hello_ignored fuel other m low = low_head fuel other.head_cid (score other.best_block) m low

  high_head :
      (fuel : ℕ) (c : Cid) (height : ℕ) (m : Manager p) (b : Block)
      → score m.best_block < height
      → p.get_block m.store (some c) ≡ ok b
      → handle_head p fuel (some c) height m ≡ inform p fuel b m
  high_head fuel c height m b high fetched = ground (arith, high, fetched)

  -- By the laws of the HAMT, of Cids and of the block store, take the hello message of another node
  -- that names a head, whose block the node can fetch. If that block is valid for the node, the fuel
  -- is more than its chain has blocks, the DAG service takes it and its transactions have Cids, then
  -- the message makes the other node's best block the node's head in every respect, and sends it to
  -- the miner.
  pub hello_syncs :
      (laws : IsHamt p) (cids : IsCid p) (blocks : IsBlockStore p) (fuel : ℕ) (other m : Manager p)
      (c : Cid) (v : IsValidBlock p m other.best_block)
      → other.head_cid ≡ some c
      → p.get_block m.store (some c) ≡ ok other.best_block
      → length v.chain < fuel
      → ((st : p.Store) → (p.dag_add other.best_block st).0 ≡ ok tt)
      → HasTxCids p other.best_block.txs
      → (m' : Manager p) × (handle_hello p fuel (hello p other) m
          ≡ some (ok (some other.best_block), m'))
        × IsHead p other.best_block m'
  unfolding handle_hello hello inform
  hello_syncs laws cids blocks fuel other m c v names fetched enough added h =
      let b = other.best_block in
      let (m', taken, head) =
        IsValidBlock-process_new_block p laws cids blocks fuel b m v enough added h in
      let informs : inform p fuel b m ≡ some (ok (some b), m') =
        map-some (λ r. (to_miner p b r.0, r.1)) (process_new_block p fuel b m) (ok tt, m') taken in
      (
        m',
        ap (λ o. handle_head p fuel o (score b) m) names
            ∙ high_head fuel c (score b) m b v.better fetched
            ∙ informs,
        head,
      )
