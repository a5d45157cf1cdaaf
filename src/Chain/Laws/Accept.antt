-- ===== src/Chain/Laws/Accept.antt =====
-- `acceptNewBlock`, on each of its exits.
use toychain.Prelude.{
  ◌≡◌, ◌≢◌, refl, sym, ◌∙◌, ap, some, none, List, [], ◌∷◌, =ᵇ-self, inl, inr, arith, ◌⊎◌, All,
}
use mathlib.Core.Path.{subst}
use toychain.Outcome.{Outcome, ok, err, panic, Error, Context, wrapping, Outcome-cases}
use toychain.Exec.{◌>>=◌, continue}
use toychain.Types.Value.{Cid}
use toychain.Types.Transaction.{Transaction}
use toychain.Types.Block.{Block}
use toychain.Types.Pool.{Pool, lookup, clear_tx, lookup-clear_tx}
use toychain.Platform.{Platform}
use toychain.Chain.Manager.{
  Manager, block_cid, add_to_dag, clear_txs, settle, set_best, drop_tx, accept_new_block, modify,
  in_context,
}

module _ (p : Platform) where
  -- No transaction of the list is in the pool.
  abbrev pub Cleared : Pool → List Transaction → Type 0
  Cleared pool = All (λ tx. (c : Cid) → p.wrap_tx tx ≡ ok c → lookup c pool ≡ none)

  -- What `clear_txs` leaves alone, whatever its end.
  pub record SameHead (m m' : Manager p) : Type 0 where
    pub best_block : m'.best_block ≡ m.best_block
    pub head_cid : m'.head_cid ≡ m.head_cid
    pub known : m'.known_good_blocks ≡ m.known_good_blocks
    pub store : m'.store ≡ m.store

  SameHead-refl : (m : Manager p) → SameHead m m
  SameHead-refl m = record { best_block = refl; head_cid = refl; known = refl; store = refl }

  pub clear_txs-ok :
      (tx : Transaction) (txs : List Transaction) (c : Cid) (m : Manager p)
      → p.wrap_tx tx ≡ ok c
      → clear_txs p (tx ∷ txs) m ≡ clear_txs p txs (drop_tx p c m)
  unfolding clear_txs
  clear_txs-ok tx txs c m e = rw (e, continue)

  clear_txs-stop :
      (tx : Transaction) (txs : List Transaction) (m : Manager p)
      → ((x : Error) × (p.wrap_tx tx ≡ err x)) ⊎ (p.wrap_tx tx ≡ panic)
      → (clear_txs p (tx ∷ txs) m).1 ≡ m
  unfolding clear_txs
  clear_txs-stop tx txs m (inl (x, e)) = rw (e, continue)
  clear_txs-stop tx txs m (inr e) = rw (e, continue)

  pub clear_txs-SameHead :
      (txs : List Transaction) (m : Manager p) → SameHead m (clear_txs p txs m).1
  clear_txs-SameHead [] m = unfold clear_txs in SameHead-refl m
  clear_txs-SameHead (tx ∷ txs) m =
      let rest : (c : Cid) → SameHead (drop_tx p c m) (clear_txs p txs (drop_tx p c m)).1 =
        λ c. clear_txs-SameHead txs (drop_tx p c m) in
      elim (Outcome-cases (p.wrap_tx tx)) [
        | inl (c, e) ↦ rw (clear_txs-ok tx txs c m e) (record {
          best_block = (rest c).best_block;
          head_cid = (rest c).head_cid;
          known = (rest c).known;
          store = (rest c).store;
        })
        | inr stop ↦ rw (clear_txs-stop tx txs m stop) (SameHead-refl m)
      ]

  -- What an earlier pool does not have, a later one does not have.
  clear_txs-absent :
      (txs : List Transaction) (m : Manager p) (c : Cid)
      → lookup c m.tx_pool ≡ none
      → lookup c (clear_txs p txs m).1.tx_pool ≡ none
  clear_txs-absent [] m c h = unfold clear_txs in h
  clear_txs-absent (tx ∷ txs) m c h =
      let rest : (d : Cid)
          → lookup c (clear_tx d m.tx_pool) ≡ none
          → lookup c (clear_txs p txs (drop_tx p d m)).1.tx_pool ≡ none =
        λ d. clear_txs-absent txs (drop_tx p d m) c in
      elim (Outcome-cases (p.wrap_tx tx)) [
        | inl (d, e) ↦
            rw (clear_txs-ok tx txs d m e) (rest d (ground (arith, lookup-clear_tx d c m.tx_pool)))
        | inr stop ↦ rw (clear_txs-stop tx txs m stop) h
      ]

  clear_txs-fails :
      (tx : Transaction) (txs : List Transaction) (m : Manager p) {u : Unit {0}}
      → ((x : Error) × (p.wrap_tx tx ≡ err x)) ⊎ (p.wrap_tx tx ≡ panic)
      → (clear_txs p (tx ∷ txs) m).0 ≢ ok u
  unfolding clear_txs
  clear_txs-fails tx txs m (inl (x, e)) h = cc (rw (e, continue) at h)
  clear_txs-fails tx txs m (inr e) h = cc (rw (e, continue) at h)

  first :
      (tx : Transaction) (txs : List Transaction) (c : Cid) (m : Manager p)
      → p.wrap_tx tx ≡ ok c
      → (d : Cid) → p.wrap_tx tx ≡ ok d
      → lookup d (clear_txs p txs (drop_tx p c m)).1.tx_pool ≡ none
  first tx txs c m e d e' =
      clear_txs-absent txs (drop_tx p c m) d
        (ground (arith, lookup-clear_tx c d m.tx_pool, =ᵇ-self c, e, e'))

  -- The transactions of a block whose loop came to its end are not in the pool any more.
  pub clear_txs-Cleared :
      (txs : List Transaction) (m : Manager p) {u : Unit {0}}
      → (clear_txs p txs m).0 ≡ ok u
      → Cleared (clear_txs p txs m).1.tx_pool txs
  clear_txs-Cleared [] m h = tt
  clear_txs-Cleared (tx ∷ txs) m {u} h =
      let rest : (c : Cid)
          → p.wrap_tx tx ≡ ok c
          → Cleared (clear_txs p txs (drop_tx p c m)).1.tx_pool txs =
        λ c e. clear_txs-Cleared txs (drop_tx p c m) {u = u} (cc (h, clear_txs-ok tx txs c m e)) in
      elim (Outcome-cases (p.wrap_tx tx)) [
        | inl (c, e) ↦
            subst (λ r. Cleared r.1.tx_pool (tx ∷ txs)) (sym (clear_txs-ok tx txs c m e))
              (first tx txs c m e, rest c e)
        | inr stop ↦ absurd (clear_txs-fails tx txs m stop h)
      ]

  pub settle-SameHead : (blk : Block) (m : Manager p) → SameHead m (settle p blk m).1
  unfolding settle
  settle-SameHead blk m =
      let cleared = clear_txs-SameHead blk.txs m in
      record {
        best_block = ground (arith, cleared.best_block);
        head_cid = ground (arith, cleared.head_cid);
        known = ground (arith, cleared.known);
        store = ground (arith, cleared.store);
      }

  -- Where `acceptNewBlock` leaves the head: as it was, or at the new block, which is then known.
  pub data Heads (blk : Block) (m m' : Manager p) : Type 0 where
    kept :
        m'.best_block ≡ m.best_block
        → m'.head_cid ≡ m.head_cid
        → m'.known_good_blocks ≡ m.known_good_blocks
        → Heads blk m m'
    taken :
        (c : Cid)
        → block_cid p blk ≡ ok c
        → m'.best_block ≡ blk
        → m'.head_cid ≡ some c
        → m'.known_good_blocks ≡ c ∷ m.known_good_blocks
        → Heads blk m m'

  -- `acceptNewBlock` from the write to the DAG on, once the block's Cid is known.
  abbrev pub with_cid : Block → Cid → Manager p → Outcome (Unit {0}) × Manager p
  with_cid blk c = in_context p Context.put_block (add_to_dag p blk) >>= λ _.
      modify p (set_best p blk c) >>= λ _. settle p blk

  pub accept-eq-with_cid :
      (blk : Block) (c : Cid) (m : Manager p)
      → block_cid p blk ≡ ok c
      → accept_new_block p blk m ≡ with_cid blk c m
  unfolding accept_new_block
  accept-eq-with_cid blk c m e = rw (e, continue)

  pub with_cid-ok :
      (blk : Block) (c : Cid) (m : Manager p) (u : Unit {0})
      → (add_to_dag p blk m).0 ≡ ok u
      → with_cid blk c m ≡ settle p blk (set_best p blk c (add_to_dag p blk m).1)
  with_cid-ok blk c m u e = rw (e, continue, wrapping)

  pub with_cid-stop :
      (blk : Block) (c : Cid) (m : Manager p)
      → ((x : Error) × ((add_to_dag p blk m).0 ≡ err x)) ⊎ ((add_to_dag p blk m).0 ≡ panic)
      → (with_cid blk c m).1 ≡ (add_to_dag p blk m).1
  with_cid-stop blk c m (inl (x, e)) = rw (e, continue, wrapping)
  with_cid-stop blk c m (inr e) = rw (e, continue, wrapping)

  pub accept-stop :
      (blk : Block) (m : Manager p)
      → ((x : Error) × (block_cid p blk ≡ err x)) ⊎ (block_cid p blk ≡ panic)
      → (accept_new_block p blk m).1 ≡ m
  unfolding accept_new_block
  accept-stop blk m (inl (x, e)) = rw (e, continue)
  accept-stop blk m (inr e) = rw (e, continue)

  add_to_dag-known :
      (blk : Block) (m : Manager p) → (add_to_dag p blk m).1.known_good_blocks ≡ m.known_good_blocks
  unfolding add_to_dag
  add_to_dag-known blk m = refl

  with_cid-Heads :
      (blk : Block) (c : Cid) (m : Manager p)
      → block_cid p blk ≡ ok c
      → Heads blk m (with_cid blk c m).1
  with_cid-Heads blk c m is_cid = elim (Outcome-cases (add_to_dag p blk m).0) [
    | inl (u, e) ↦
        let m' = set_best p blk c (add_to_dag p blk m).1 in
        let same = settle-SameHead blk m' in
        rw (with_cid-ok blk c m u e) (
          taken c is_cid same.best_block same.head_cid
            (same.known ∙ ap (λ l. c ∷ l) (add_to_dag-known blk m)))
    | inr stop ↦ rw (with_cid-stop blk c m stop) (unfold add_to_dag in kept refl refl refl)
  ]

  pub accept_new_block-Heads :
      (blk : Block) (m : Manager p) → Heads blk m (accept_new_block p blk m).1
  accept_new_block-Heads blk m = elim (Outcome-cases (block_cid p blk)) [
    | inl (c, e) ↦
        subst (λ r. Heads blk m r.1) (sym (accept-eq-with_cid blk c m e)) (with_cid-Heads blk c m e)
    | inr stop ↦ rw (accept-stop blk m stop) (kept refl refl refl)
  ]
