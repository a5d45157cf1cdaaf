-- ===== src/Examples/Toy.antt =====
-- A platform for examples: a store that keeps every node that was put, under its position, and nodes
-- that are association lists.
use toychain.Prelude.{
  ℕ, zero, suc, ◌≡◌, refl, Bool, Option, none, some, List, [], ◌∷◌, ◌++◌, ◌=ᵇ◌, arith, Bytes,
  length, get_elem?, if◌then◌else◌, ap, sym, ◌∙◌,
}
use toychain.Outcome.{Outcome, ok, err, panic, not_found, library}
use toychain.Types.Value.{Cid}
use toychain.Types.Block.{Block}
use toychain.Platform.{Platform, Actor}
use toychain.Platform.Laws.{IsHamt, IsActorCodec, IsCid, Grows}

abbrev pub ToyNode : Type 0
ToyNode = List (Bytes × Bytes)

pub record ToyStore : Type 0 where
  pub nodes : List ToyNode
  pub blocks : List (Cid × Block)

unfoldable pub toy_find : ToyNode → Bytes → Outcome Bytes
toy_find [] k = err not_found
toy_find ((j, v) ∷ n) k = if j =ᵇ k then ok v else toy_find n k

abbrev of_option {ℓ} : {A : Type ℓ} → Option A → Outcome A
of_option none = err (library 1)
of_option (some a) = ok a

unfoldable pub toy_load : ToyStore → Option Cid → Outcome ToyNode
toy_load st (some (i ∷ [])) = of_option (get_elem? st.nodes i)
toy_load st _ = err (library 2)

find_block : List (Cid × Block) → Cid → Option Block
find_block [] c = none
find_block ((d, b) ∷ l) c = if d =ᵇ c then some b else find_block l c

unfoldable pub toy_get_block : ToyStore → Option Cid → Outcome Block
unfolding find_block
toy_get_block st none = panic
toy_get_block st (some c) = of_option (find_block st.blocks c)

-- A reference to a Cid of one byte, or to none.
abbrev short : Option Cid → Option Bytes
short none = some (0 ∷ 0 ∷ [])
short (some (i ∷ [])) = some (1 ∷ i ∷ [])
short (some _) = none

joined : Option Bytes → Option Bytes → ℕ → Outcome Bytes
joined (some c) (some m) n = ok (n ∷ (c ++ m))
joined (some c) none n = err (library 3)
joined none m n = err (library 3)

unfoldable pub toy_marshal : Actor → Outcome Bytes
unfolding joined
toy_marshal a = joined (short a.code) (short a.memory) a.nonce

abbrev long : ℕ → ℕ → Option Cid
long zero i = none
long (suc t) i = some (i ∷ [])

unfoldable pub toy_unmarshal : Bytes → Outcome Actor
toy_unmarshal (n ∷ s ∷ i ∷ t ∷ j ∷ []) =
    ok (record { code = long s i; memory = long t j; nonce = n })
toy_unmarshal _ = err (library 4)

unfoldable pub toy_equals : Option Cid → Option Cid → Outcome Bool
toy_equals (some a) (some b) = ok (a =ᵇ b)
toy_equals _ _ = panic

abbrev pub toy_cid : Block → Cid
toy_cid b = b.height ∷ length b.txs ∷ []

abbrev pub toy : Platform
toy = record {
  Store = ToyStore;
  Node = ToyNode;
  new_node = [];
  find = λ st n k. toy_find n k;
  set = λ st k v n. (ok tt, (k, v) ∷ n);
  flush = λ n st. (ok tt, n, st);
  copy = λ n. n;
  put = λ n st. (ok (length st.nodes ∷ []), record st { nodes = st.nodes ++ n ∷ [] });
  load = toy_load;
  get_block = toy_get_block;
  marshal_actor = toy_marshal;
  unmarshal_actor = toy_unmarshal;
  equals = toy_equals;
  contract_cid = 7 ∷ [];
  wrap_block = λ b. ok (toy_cid b);
  wrap_tx = λ tx. ok (tx.nonce ∷ tx.sender);
  dag_add = λ b st. (ok tt, record st { blocks = (toy_cid b, b) ∷ st.blocks });
}

get_elem?-append :
    {A : Type 0} (l : List A) (x a : A) (i : ℕ)
    → get_elem? l i ≡ some a
    → get_elem? (l ++ x ∷ []) i ≡ some a
get_elem?-append [] x a i h = absurd (cc)
get_elem?-append (y ∷ l) x a zero h = h
get_elem?-append (y ∷ l) x a (suc i) h = get_elem?-append l x a i h

get_elem?-length : {A : Type 0} (l : List A) (x : A) → get_elem? (l ++ x ∷ []) (length l) ≡ some x
get_elem?-length [] x = refl
get_elem?-length (y ∷ l) x = get_elem?-length l x

toy_load-append :
    (st : ToyStore) (c : Option Cid) (n m : ToyNode)
    → toy_load st c ≡ ok n
    → toy_load (record st { nodes = st.nodes ++ m ∷ [] }) c ≡ ok n
unfolding toy_load
toy_load-append st (some (i ∷ [])) n m h = ground (arith, h, get_elem?-append st.nodes m n i)
toy_load-append st none n m h = absurd (cc)
toy_load-append st (some []) n m h = absurd (cc)
toy_load-append st (some (i ∷ j ∷ l)) n m h = absurd (cc)

toy_put-Grows :
    (st : ToyStore) (m : ToyNode) → Grows toy st (record st { nodes = st.nodes ++ m ∷ [] })
toy_put-Grows st m = record { finds = λ n k h. refl; loads = λ c n h. toy_load-append st c n m h }

toy-load_put :
    (st : ToyStore) (n : ToyNode)
    → toy_load (record st { nodes = st.nodes ++ n ∷ [] }) (some (length st.nodes ∷ [])) ≡ ok n
unfolding toy_load
toy-load_put st n = rw (get_elem?-length st.nodes n)

toy_load_at :
    (st : ToyStore) (n : ToyNode) (c : Cid)
    → length st.nodes ∷ [] ≡ c
    → toy_load (record st { nodes = st.nodes ++ n ∷ [] }) (some c) ≡ ok n
toy_load_at st n c e =
    ap (λ i. toy_load (record st { nodes = st.nodes ++ n ∷ [] }) (some i)) (sym e)
    ∙ toy-load_put st n

pub toy-IsHamt : IsHamt toy
unfolding toy_find
toy-IsHamt = record {
  find_new = λ st k. refl;
  find_set = λ st k v n h j. refl;
  set_no_revert = λ st k v n e h. cc;
  find_flush = λ st n h k. refl;
  flush_grows = λ st n. record { finds = λ m k h. refl; loads = λ c m h. h };
  put_grows = λ st n. toy_put-Grows st n;
  load_put = λ st n c h. (n, toy_load_at st n c (cc h), λ k. refl);
}

-- By the forms of the two references.
joined_back :
    (c m : Option Cid) (n : ℕ) (d : Bytes)
    → joined (short c) (short m) n ≡ ok d
    → toy_unmarshal d ≡ ok (record { code = c; memory = m; nonce = n })
unfolding joined toy_unmarshal
joined_back none none n d h = let e : n ∷ 0 ∷ 0 ∷ 0 ∷ 0 ∷ [] ≡ d = cc h in rw (sym e)
joined_back none (some (j ∷ [])) n d h = let e : n ∷ 0 ∷ 0 ∷ 1 ∷ j ∷ [] ≡ d = cc h in rw (sym e)
joined_back (some (i ∷ [])) none n d h = let e : n ∷ 1 ∷ i ∷ 0 ∷ 0 ∷ [] ≡ d = cc h in rw (sym e)
joined_back (some (i ∷ [])) (some (j ∷ [])) n d h =
    let e : n ∷ 1 ∷ i ∷ 1 ∷ j ∷ [] ≡ d = cc h in rw (sym e)
joined_back (some []) m n d h = absurd (cc)
joined_back (some (i ∷ k ∷ l)) m n d h = absurd (cc)
joined_back none (some []) n d h = absurd (cc)
joined_back none (some (j ∷ k ∷ l)) n d h = absurd (cc)
joined_back (some (i ∷ [])) (some []) n d h = absurd (cc)
joined_back (some (i ∷ [])) (some (j ∷ k ∷ l)) n d h = absurd (cc)

toy-round_trip : (a : Actor) (d : Bytes) → toy_marshal a ≡ ok d → toy_unmarshal d ≡ ok a
unfolding toy_marshal
toy-round_trip a d h = joined_back a.code a.memory a.nonce d h

pub toy-IsActorCodec : IsActorCodec toy
toy-IsActorCodec = record { round_trip = toy-round_trip }

pub toy-IsCid : IsCid toy
unfolding toy_equals
toy-IsCid = record { equals_some = λ a b. refl; equals_none = λ a h. cc }
