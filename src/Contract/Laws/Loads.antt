-- ===== src/Contract/Laws/Loads.antt =====
-- A node that was flushed and put, and is loaded again.
use toychain.Prelude.{◌≡◌, refl, ◌∙◌, some, Bytes}
use toychain.Outcome.{Outcome, ok, err, panic}
use toychain.Types.Value.{Cid}
use toychain.Platform.{Platform}
use toychain.Platform.Laws.{IsHamt, Grows, Grows-trans}
use toychain.Contract.World.{World}
use toychain.Contract.Execute.{flush_state, flush_memory}

module _ (p : Platform) where
  -- The later store loads a node from the Cid that answers as the first node did.
  pub record Loads (st : p.Store) (n : p.Node) (st' : p.Store) (c : Cid) : Type 0 where
    pub node : p.Node
    pub loaded : p.load st' (some c) ≡ ok node
    pub same : (k : Bytes) → p.find st' node k ≡ p.find st n k
    pub grows : Grows p st st'

module _ (p : Platform) (laws : IsHamt p) where
  put-Loads :
      (st : p.Store) (n : p.Node) (c : Cid)
      → (p.flush n st).0 ≡ ok tt
      → (p.put (p.flush n st).1 (p.flush n st).2).0 ≡ ok c
      → Loads p st n (p.put (p.flush n st).1 (p.flush n st).2).1 c
  put-Loads st n c flushed h =
      let n' = (p.flush n st).1 in
      let st' = (p.flush n st).2 in
      let (m, loaded, same) = laws.load_put st' n' c h in
      record {
        node = m;
        loaded = loaded;
        same = λ k. same k ∙ laws.find_flush st n flushed k;
        grows =
            Grows-trans p st st' (p.put n' st').1 (laws.flush_grows st n) (laws.put_grows st' n');
      }

  pub flush_state-Loads :
      (w : World p) (c : Cid)
      → (flush_state p w).0 ≡ ok c
      → Loads p w.store w.root (flush_state p w).1.store c
  unfolding flush_state
  flush_state-Loads w c h = go (p.flush w.root w.store).0 refl
    where
      go :
          (r : Outcome (Unit {0}))
          → (p.flush w.root w.store).0 ≡ r
          → Loads p w.store w.root (flush_state p w).1.store c
      go (ok u) e = rw (e, flush_state) (put-Loads w.store w.root c e (rw (e, flush_state) at h))
      go (err x) e = absurd (cc (rw (e, flush_state) at h))
      go panic e = absurd (cc (rw (e, flush_state) at h))

  pub flush_memory-Loads :
      (n : p.Node) (w : World p) (c : Cid)
      → (flush_memory p n w).0 ≡ ok c
      → Loads p w.store n (flush_memory p n w).1.store c
  unfolding flush_memory
  flush_memory-Loads n w c h = go (p.flush n w.store).0 refl
    where
      go :
          (r : Outcome (Unit {0}))
          → (p.flush n w.store).0 ≡ r
          → Loads p w.store n (flush_memory p n w).1.store c
      go (ok u) e = rw (e, flush_memory) (put-Loads w.store n c e (rw (e, flush_memory) at h))
      go (err x) e = absurd (cc (rw (e, flush_memory) at h))
      go panic e = absurd (cc (rw (e, flush_memory) at h))
