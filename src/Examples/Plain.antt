-- ===== src/Examples/Plain.antt =====
-- The example platform with a codec that refuses blocks of other transactions than payments from the
-- contract to Alice, and with a Cid that names the block's state.
use toychain.Prelude.{
  ℕ, ◌≡◌, refl, sym, ap, ◌∙◌, Bool, true, false, Option, none, some, List, [], ◌∷◌, ◌=ᵇ◌, =ᵇ→eq,
  Bytes, Bool-cases, inl, inr, length, if◌then◌else◌, All, ◌&&◌,
}
use toychain.Prelude.Int.{ℤ, pos, negsuc}
use toychain.Outcome.{Outcome, ok, err, panic, library}
use toychain.Types.Value.{Value, Cid}
use toychain.Types.Address.{Address}
use toychain.Types.Transaction.{Transaction}
use toychain.Types.Block.{Block}
use toychain.Platform.{Platform}
use toychain.Platform.Laws.{IsHamt, IsActorCodec, IsCid, IsBlockStore}
use toychain.Contract.Cast.{address_cast, number_cast}
use toychain.Contract.Laws.Transfer.{Reads}
use toychain.Contract.Laws.Reading.{IsOrdinary}
use toychain.Chain.Miner.{contract_addr}
use toychain.Contract.Laws.Supply.{contains}
use toychain.Chain.Laws.Funded.{Ordinary, block_cid-wrap}
use toychain.Examples.Toy.{toy, ToyStore, toy_load, toy-IsHamt, toy-IsActorCodec, toy-IsCid}
use toychain.Examples.Contract.{alice}

unfoldable pub to_alice : Outcome Address → Bool
to_alice (ok a) = a =ᵇ alice
to_alice (err e) = false
to_alice panic = false

unfoldable pub not_negative : Outcome ℤ → Bool
not_negative (ok (pos n)) = true
not_negative (ok (negsuc n)) = false
not_negative (err e) = false
not_negative panic = false

unfoldable pub pays : List Value → Bool
unfolding to_alice not_negative
pays (x ∷ y ∷ []) = to_alice (address_cast x) && not_negative (number_cast y)
pays _ = false

unfoldable pub is_plain : Transaction → Bool
unfolding pays
is_plain tx = (tx.to =ᵇ contract_addr) && ((tx.sender =ᵇ contract_addr) && pays tx.params)

unfoldable pub are_plain : List Transaction → Bool
unfolding is_plain
are_plain [] = true
are_plain (tx ∷ txs) = is_plain tx && are_plain txs

abbrev state_name : Option Cid → Bytes
state_name none = 0 ∷ []
state_name (some c) = 1 ∷ c

abbrev pub plain_cid : Block → Cid
plain_cid b = b.height ∷ length b.txs ∷ state_name b.state_root

unfoldable pub plain_wrap : Block → Outcome Cid
unfolding are_plain
plain_wrap b = if are_plain b.txs then ok (plain_cid b) else err (library 6)

abbrev pub plain : Platform
plain = record toy {
  wrap_block = plain_wrap;
  dag_add = λ b st. (ok tt, record st { blocks = (plain_cid b, b) ∷ st.blocks });
}

pub plain-IsHamt : IsHamt plain
plain-IsHamt = record {
  find_new = toy-IsHamt.find_new;
  find_set = toy-IsHamt.find_set;
  set_no_revert = toy-IsHamt.set_no_revert;
  find_flush = toy-IsHamt.find_flush;
  flush_grows = λ st n. record {
    finds = (toy-IsHamt.flush_grows st n).finds;
    loads = (toy-IsHamt.flush_grows st n).loads;
  };
  put_grows = λ st n. record {
    finds = (toy-IsHamt.put_grows st n).finds;
    loads = (toy-IsHamt.put_grows st n).loads;
  };
  load_put = toy-IsHamt.load_put;
}

pub plain-IsActorCodec : IsActorCodec plain
plain-IsActorCodec = record { round_trip = toy-IsActorCodec.round_trip }

pub plain-IsCid : IsCid plain
plain-IsCid = record { equals_some = toy-IsCid.equals_some; equals_none = toy-IsCid.equals_none }

plain_wrap-ok :
    (b : Block) (c : Cid) → plain_wrap b ≡ ok c → (are_plain b.txs ≡ true) × (plain_cid b ≡ c)
unfolding plain_wrap
plain_wrap-ok b c h = elim (Bool-cases (are_plain b.txs)) [
  | inl good ↦ (good, cc (rw good at h))
  | inr bad ↦ absurd (cc (rw bad at h))
]

state_name-injective : (r s : Option Cid) → state_name r ≡ state_name s → r ≡ s
state_name-injective none none h = refl
state_name-injective none (some d) h = absurd (cc h)
state_name-injective (some c) none h = absurd (cc h)
state_name-injective (some c) (some d) h = cc h

toy_load-blocks :
    (st : ToyStore) (blocks : List (Cid × Block)) (c : Option Cid)
    → toy_load (record st { blocks = blocks }) c ≡ toy_load st c
unfolding toy_load
toy_load-blocks st blocks none = refl
toy_load-blocks st blocks (some []) = refl
toy_load-blocks st blocks (some (i ∷ [])) = refl
toy_load-blocks st blocks (some (i ∷ j ∷ l)) = refl

pub plain-IsBlockStore : IsBlockStore plain
unfolding toy_load
plain-IsBlockStore = record {
  same_state = λ a b c ha hb.
      let same : plain_cid a ≡ plain_cid b =
        (plain_wrap-ok a c ha).1 ∙ sym ((plain_wrap-ok b c hb).1) in
      state_name-injective a.state_root b.state_root (cc same);
  add_grows = λ b st. record {
    finds = λ n k h. refl;
    loads = λ c n h. toy_load-blocks st ((plain_cid b, b) ∷ st.blocks) c ∙ h;
  };
}

to_alice-ok : (r : Outcome Address) → to_alice r ≡ true → r ≡ ok alice
unfolding to_alice
to_alice-ok (ok a) h = ap ok (=ᵇ→eq a alice h)
to_alice-ok (err e) h = absurd (cc h)
to_alice-ok panic h = absurd (cc h)

not_negative-ok : (r : Outcome ℤ) → not_negative r ≡ true → (n : ℕ) × (r ≡ ok (pos n))
unfolding not_negative
not_negative-ok (ok (pos n)) h = (n, refl)
not_negative-ok (ok (negsuc n)) h = absurd (cc h)
not_negative-ok (err e) h = absurd (cc h)
not_negative-ok panic h = absurd (cc h)

both : (a b : Bool) → (a && b) ≡ true → (a ≡ true) × (b ≡ true)
both true true h = (refl, refl)
both true false h = absurd (cc h)
both false b h = absurd (cc h)

pays-Reads : (params : List Value) → pays params ≡ true → (n : ℕ) × Reads params alice (pos n)
unfolding pays
pays-Reads (x ∷ y ∷ []) h =
    let (first, second) = both (to_alice (address_cast x)) (not_negative (number_cast y)) h in
    let (n, is_number) = not_negative-ok (number_cast y) second in
    (
      n,
      record {
        to_arg = x;
        amount_arg = y;
        two = refl;
        is_address = to_alice-ok (address_cast x) first;
        is_number = is_number;
      },
    )
pays-Reads [] h = absurd (cc h)
pays-Reads (x ∷ []) h = absurd (cc h)
pays-Reads (x ∷ y ∷ z ∷ l) h = absurd (cc h)

abbrev pub accounts : List Address
accounts = contract_addr ∷ alice ∷ []

contract_apart :
    ((contract_addr =ᵇ alice) ≡ false)
    × (contains contract_addr accounts ≡ true)
    × (contains alice accounts ≡ true)
unfolding ◌=ᵇ◌
contract_apart = (refl, refl, refl)

is_plain-IsOrdinary : (tx : Transaction) → is_plain tx ≡ true → IsOrdinary contract_addr accounts tx
unfolding is_plain
is_plain-IsOrdinary tx h =
    let (to, rest) =
      both (tx.to =ᵇ contract_addr) ((tx.sender =ᵇ contract_addr) && pays tx.params) h in
    let (from, paying) = both (tx.sender =ᵇ contract_addr) (pays tx.params) rest in
    let (n, reads) = pays-Reads tx.params paying in
    let (apart, lists_contract, lists_alice) = contract_apart in
    let sender = =ᵇ→eq tx.sender contract_addr from in
    record {
      to_contract = =ᵇ→eq tx.to contract_addr to;
      call_is = inr (alice, n, reads, rw sender apart, rw sender lists_contract, lists_alice);
    }

are_plain-IsOrdinary :
    (txs : List Transaction) → are_plain txs ≡ true → All (IsOrdinary contract_addr accounts) txs
unfolding are_plain
are_plain-IsOrdinary [] h = tt
are_plain-IsOrdinary (tx ∷ txs) h =
    let (first, rest) = both (is_plain tx) (are_plain txs) h in
    (is_plain-IsOrdinary tx first, are_plain-IsOrdinary txs rest)

-- A block that has a Cid on this platform is ordinary.
pub plain-Ordinary : (known : List Cid) → Ordinary plain contract_addr accounts known
plain-Ordinary known b c is_cid here =
    are_plain-IsOrdinary b.txs (plain_wrap-ok b c (block_cid-wrap plain b c is_cid)).0
