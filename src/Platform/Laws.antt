-- ===== src/Platform/Laws.antt =====
-- What the proofs assume of the libraries: their documented behaviour where they succeed. No law
-- says that a call does succeed.
use toychain.Prelude.{◌∙◌, ◌≡◌, refl, ◌≢◌, true, Option, none, some, Bytes, ◌=ᵇ◌, if◌then◌else◌}
use toychain.Outcome.{Outcome, ok, err, Error, not_found, revert}
use toychain.Types.Value.{Cid}
use toychain.Types.Block.{Block}
use toychain.Platform.{Platform, Actor}

-- A lookup that reached its end: it found a value, or that there is none.
abbrev pub Answered : Outcome Bytes → Type 0
Answered (ok _) = Unit
Answered (err not_found) = Unit
Answered _ = ⊥

module _ (p : Platform) where
  open p use {
    new_node, Store, Node, find, set, flush, put, load, marshal_actor, unmarshal_actor, equals,
    wrap_block, dag_add,
  }

  -- A later store answers what an earlier one answered.
  pub record Grows (before after : Store) : Type 0 where
    pub finds :
        (n : Node) (k : Bytes) → Answered (find before n k) → find after n k ≡ find before n k
    pub loads : (c : Option Cid) (n : Node) → load before c ≡ ok n → load after c ≡ ok n

  pub Grows-trans : (a b c : Store) → Grows a b → Grows b c → Grows a c
  Grows-trans a b c g h = record {
    finds = λ n k e. h.finds n k (rw (g.finds n k e) e) ∙ g.finds n k e;
    loads = λ i n e. h.loads i n (g.loads i n e);
  }

  pub Grows-refl : (st : Store) → Grows st st
  Grows-refl st = record { finds = λ n k e. refl; loads = λ i n e. e }

  pub record IsHamt : Type 0 where
    -- A new node is empty.
    pub find_new : (st : Store) (k : Bytes) → find st new_node k ≡ err not_found
    -- After `Set` the key has the value, and every other key what it had.
    pub find_set :
        (st : Store) (k v : Bytes) (n : Node)
        → (set st k v n).0 ≡ ok tt
        → (j : Bytes) → find st (set st k v n).1 j ≡ (if k =ᵇ j then ok v else find st n j)
    -- No error of the library is a `revertError`, which contract/contract.go does not export.
    pub set_no_revert :
        (st : Store) (k v : Bytes) (n : Node) (e : Error) → (set st k v n).0 ≢ err (revert e)
    -- `Flush` writes the children of a node out, and changes no answer.
    pub find_flush :
        (st : Store) (n : Node)
        → (flush n st).0 ≡ ok tt
        → (k : Bytes) → find (flush n st).2 (flush n st).1 k ≡ find st n k
    pub flush_grows : (st : Store) (n : Node) → Grows st (flush n st).2
    -- A node that was put is loaded from its Cid, with the same answers.
    pub put_grows : (st : Store) (n : Node) → Grows st (put n st).1
    pub load_put :
        (st : Store) (n : Node) (c : Cid)
        → (put n st).0 ≡ ok c
        → (m : Node) × (load (put n st).1 (some c) ≡ ok m)
          × ((k : Bytes) → find (put n st).1 m k ≡ find st n k)

  pub record IsActorCodec : Type 0 where
    pub round_trip : (a : Actor) (d : Bytes) → marshal_actor a ≡ ok d → unmarshal_actor d ≡ ok a

  pub record IsCid : Type 0 where
    pub equals_some : (a b : Cid) → equals (some a) (some b) ≡ ok (a =ᵇ b)
    -- A Cid is not equal to a nil one.
    pub equals_none : (a : Cid) → equals (some a) none ≢ ok true

  -- What the block store does with a block.
  pub record IsBlockStore : Type 0 where
    -- Two blocks with one Cid name one state.
    pub same_state :
        (a b : Block) (c : Cid)
        → wrap_block a ≡ ok c
        → wrap_block b ≡ ok c
        → a.state_root ≡ b.state_root
    -- A block that is added replaces nothing.
    pub add_grows : (b : Block) (st : Store) → Grows st (dag_add b st).1
