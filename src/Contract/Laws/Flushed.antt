-- ===== src/Contract/Laws/Flushed.antt =====
-- A ledger and its sum when a state is flushed, and when its store grows.
use toychain.Prelude.{ℕ, ◌≡◌, refl, ap, sym, ◌∙◌, List, [], ◌∷◌, All, All-map, Bytes}
use mathlib.Core.Path.{subst}
use toychain.Outcome.{Outcome, ok, err, panic}
use toychain.Types.Value.{Cid}
use toychain.Types.Address.{Address}
use toychain.Platform.{Platform, Actor}
use toychain.Platform.Laws.{Answered, IsHamt, Grows}
use toychain.Contract.World.{World, get_actor, read_actor}
use toychain.Contract.Execute.{flush_state}
use toychain.Contract.Laws.Actors.{actor_at, read_actor-Answered}
use toychain.Contract.Laws.Supply.{total}
use toychain.Contract.Laws.Loads.{flush_state-Loads}
use toychain.Contract.Laws.Ledger.{held}
use toychain.Contract.Laws.Conserve.{HasTotal}

module _ (p : Platform) where
  -- The second world answers all that the first one answered, of the state and of any memory.
  pub record Answers (w w' : World p) : Type 0 where
    pub of_root :
        (k : Bytes)
        → Answered (p.find w.store w.root k)
        → p.find w'.store w'.root k ≡ p.find w.store w.root k
    pub grows : Grows p w.store w'.store

  actor_at-Answers :
      (w w' : World p) (s : Answers w w') (a : Address) (act : Actor)
      → actor_at p w a ≡ ok act
      → actor_at p w' a ≡ ok act
  unfolding actor_at get_actor
  actor_at-Answers w w' s a act h =
      ap (read_actor p) (s.of_root a (read_actor-Answered p (p.find w.store w.root a) act h)) ∙ h

  total-Grows :
      (st st' : p.Store) (n : p.Node) (accounts : List Address)
      → Grows p st st'
      → All (λ a. Answered (p.find st n a)) accounts
      → total (held p st' n) accounts ≡ total (held p st n) accounts
  unfolding held
  total-Grows st st' n [] g h = refl
  total-Grows st st' n (a ∷ rest) g h = rw (g.finds n a h.0, total-Grows st st' n rest g h.1)

  -- A ledger keeps its sum in such a world.
  pub Answers-HasTotal :
      (w w' : World p) (contract : Address) (accounts : List Address) (sum : ℕ)
      → Answers w w'
      → HasTotal p w contract accounts sum
      → HasTotal p w' contract accounts sum
  Answers-HasTotal w w' contract accounts sum s t =
      let l = t.is_ledger in
      record {
        ledger = t.ledger;
        is_ledger = record {
          account = l.account;
          there = actor_at-Answers w w' s contract l.account l.there;
          loaded = s.grows.loads l.account.memory t.ledger l.loaded;
        };
        reads =
            All-map accounts (λ a h. subst Answered (sym (s.grows.finds t.ledger a h)) h) t.reads;
        adds_up = total-Grows w.store w'.store t.ledger accounts s.grows t.reads ∙ t.adds_up;
      }

module _ (p : Platform) (laws : IsHamt p) where
  flush_state-root :
      (w : World p) (c : Cid) (k : Bytes)
      → (flush_state p w).0 ≡ ok c
      → Answered (p.find w.store w.root k)
      → p.find (flush_state p w).1.store (flush_state p w).1.root k ≡ p.find w.store w.root k
  unfolding flush_state
  flush_state-root w c k h there = go (p.flush w.root w.store).0 refl
    where
      go :
          (r : Outcome (Unit {0}))
          → (p.flush w.root w.store).0 ≡ r
          → p.find (flush_state p w).1.store (flush_state p w).1.root k ≡ p.find w.store w.root k
      go (ok u) e =
          let n = (p.flush w.root w.store).1 in
          let st = (p.flush w.root w.store).2 in
          let same = laws.find_flush w.store w.root e k in
          rw (e, flush_state)
            ((laws.put_grows st n).finds n k (subst Answered (sym same) there) ∙ same)
      go (err x) e = absurd (cc (rw (e, flush_state) at h))
      go panic e = absurd (cc (rw (e, flush_state) at h))

  pub flush_state-Answers :
      (w : World p) (c : Cid) → (flush_state p w).0 ≡ ok c → Answers p w (flush_state p w).1
  flush_state-Answers w c h = record {
    of_root = λ k. flush_state-root w c k h;
    grows = (flush_state-Loads p laws w c h).grows;
  }
