-- ===== src/Chain/Laws/Head.antt =====
-- What `acceptNewBlock` has done when it returns no error.
use toychain.Prelude.{◌≡◌, refl, ◌∙◌, ap, true, Option, some, List, ◌∷◌, =ᵇ-self, arith, sym}
use mathlib.Core.Path.{subst}
use toychain.Outcome.{ok, Context, wrapping-eq-ok}
use toychain.Exec.{◌>>=◌, ◌>>◌, >>=-eq-ok, lift}
use toychain.Types.Value.{Cid}
use toychain.Types.Block.{Block}
use toychain.Platform.{Platform}
use toychain.Contract.World.{World, load_state}
use toychain.Chain.Manager.{
  Manager, has, block_cid, add_to_dag, clear_txs, load_root, settle, set_best, publish,
  accept_new_block, modify, in_context,
}
use toychain.Chain.Laws.Accept.{Cleared, clear_txs-SameHead, clear_txs-Cleared, with_cid}

module _ (p : Platform) where
  -- Without an error the new block is the head: its Cid is known, its state is the one that is
  -- loaded from its root, its transactions have left the pool, and it was published.
  pub record IsHead (blk : Block) (m : Manager p) : Type 0 where
    pub cid : Cid
    pub is_cid : block_cid p blk ≡ ok cid
    pub best : m.best_block ≡ blk
    pub head : m.head_cid ≡ some cid
    pub known : has cid m.known_good_blocks ≡ true
    pub state : p.load m.store blk.state_root ≡ ok m.state_root
    pub cleared : Cleared p m.tx_pool blk.txs
    pub published : (older : List Block) × (m.notified ≡ blk ∷ older)

  pub load_state-root :
      (st : p.Store) (c : Option Cid) (w : World p)
      → load_state p st c ≡ ok w
      → p.load st c ≡ ok w.root
  unfolding load_state
  load_state-root st c w h = ground arith

  -- A `settle` that returned no error loaded the block's state after it had cleared the pool.
  pub settle-steps :
      (blk : Block) (m : Manager p)
      → (settle p blk m).0 ≡ ok tt
      → ((clear_txs p blk.txs m).0 ≡ ok tt)
        × ((w : World p) × (p.load (clear_txs p blk.txs m).1.store blk.state_root ≡ ok w.root)
            × ((settle p blk m).1
                ≡ publish p blk (record (clear_txs p blk.txs m).1 { state_root = w.root })))
  unfolding settle
  settle-steps blk m h =
      let m' = (clear_txs p blk.txs m).1 in
      let load = in_context p Context.approved_state (load_root p blk.state_root) in
      let store = λ (w : World p).
        modify p (λ m. record m { state_root = w.root }) >> modify p (publish p blk) in
      let (u, e1, r1) = >>=-eq-ok (clear_txs p blk.txs) (λ _. load >>= store) m h in
      let (w, e2, r2) = >>=-eq-ok load store m' {b = tt} (cc h) in
      let loaded =
        wrapping-eq-ok Context.approved_state (load_state p m'.store blk.state_root) e2 in
      (e1, (w, load_state-root m'.store blk.state_root w loaded, ap (λ r. r.1) (r1 ∙ r2)))

  -- A block that `acceptNewBlock` took without an error is the head in every respect.
  pub accept_new_block-IsHead :
      (blk : Block) (m : Manager p)
      → (accept_new_block p blk m).0 ≡ ok tt
      → IsHead blk (accept_new_block p blk m).1
  unfolding accept_new_block
  accept_new_block-IsHead blk m h =
      let (c, is_cid, r1) = >>=-eq-ok (lift (block_cid p blk)) (with_cid p blk) m h in
      let (u, e2, r2) =
        >>=-eq-ok (in_context p Context.put_block (add_to_dag p blk))
          (λ _. modify p (set_best p blk c) >> settle p blk) m {b = tt} (cc h) in
      let m' = set_best p blk c (add_to_dag p blk m).1 in
      let reached : accept_new_block p blk m ≡ settle p blk m' = r1 ∙ r2 in
      let (cleared, (w, loaded, end)) = settle-steps blk m' (cc (h, reached)) in
      let same = clear_txs-SameHead p blk.txs m' in
      let final : (accept_new_block p blk m).1
          ≡ publish p blk (record (clear_txs p blk.txs m').1 { state_root = w.root }) =
        ap (λ r. r.1) reached ∙ end in
      subst (IsHead blk) (sym final) (record {
        cid = c;
        is_cid = is_cid;
        best = same.best_block;
        head = same.head_cid;
        known = rw (same.known) (ground (arith, =ᵇ-self c));
        state = loaded;
        cleared = clear_txs-Cleared p blk.txs m' cleared;
        published = ((clear_txs p blk.txs m').1.notified, refl);
      })
