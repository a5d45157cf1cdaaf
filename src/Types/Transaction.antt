-- ===== src/Types/Transaction.antt =====
-- `Transaction` of types/types.go, and the two functions of its CBOR transform.
use toychain.Prelude.{ℕ, ◌≡◌, arith, Option, none, some, List, [], ◌∷◌, map, Bytes}
use toychain.Prelude.Int.{ℤ, pos, abs}
use toychain.Outcome.{Outcome, ok, err, panic, Message, message, ◌>>=◌}
use toychain.BigInt
use toychain.BigInt.{set_bytes, set_bytes-bytes}
use toychain.Types.Address.{Address}
use toychain.Types.Value.{Value, nil, address, string, bytes, uint64, big_int}
use mathlib.Core.Option

pub record Signature : Type 0 where
  pub v : ℤ
  pub r : ℤ
  pub s : ℤ

-- The source's fields; `none` stands for a nil pointer.
pub record Transaction : Type 0 where
  pub to : Address
  pub sender : Address
  pub nonce : ℕ
  pub tick_cost : Option ℤ
  pub ticks : Option ℤ
  pub method : Bytes
  pub params : List Value
  pub signature : Option Signature

-- An element of the `[]interface{}` that stands for a transaction.
pub data Field : Type 0 where
  value : Value → Field
  list : List Value → Field

abbrev from_big : Option ℤ → Value
from_big none = nil
from_big (some x) = big_int x

-- The marshal function of `transactionCborEntry`: the signature is left out.
unfoldable pub to_fields : Transaction → List Field
to_fields tx =
    value (address tx.to)
    ∷ value (address tx.sender)
    ∷ value (uint64 tx.nonce)
    ∷ value (from_big tx.tick_cost)
    ∷ value (from_big tx.ticks)
    ∷ value (string tx.method)
    ∷ list tx.params
    ∷ []

-- `x.(string)`, `x.(uint64)` and `x.([]interface{})` panic at any other type.
abbrev as_string : Field → Outcome Bytes
as_string (value (string s)) = ok s
as_string _ = panic

abbrev as_uint64 : Field → Outcome ℕ
as_uint64 (value (uint64 n)) = ok n
as_uint64 _ = panic

abbrev as_list : Field → Outcome (List Value)
as_list (list l) = ok l
as_list _ = panic

-- `if b, ok := x.([]byte); ok { ... SetBytes(b) }`
abbrev as_big : Field → Option ℤ
as_big (value (bytes b)) = some (set_bytes b)
as_big _ = none

-- The unmarshal function of `transactionCborEntry`.
unfoldable pub from_fields : List Field → Outcome Transaction
from_fields (f ∷ g ∷ n ∷ c ∷ t ∷ m ∷ p ∷ []) = do
  to ← as_string f
  sender ← as_string g
  nonce ← as_uint64 n
  method ← as_string m
  params ← as_list p
  ok (record {
    to = to;
    sender = sender;
    nonce = nonce;
    tick_cost = as_big c;
    ticks = as_big t;
    method = method;
    params = params;
    signature = none;
  })
from_fields _ = err (message Message.expected_six_fields)

-- What the CBOR library makes of a value between the two, on each element.
abbrev pub carried : (Value → Value) → Field → Field
carried wire (value v) = value (wire v)
carried wire (list l) = list (map wire l)

-- The codec's documented treatment of the types that a transaction's own fields have.
pub record IsWire (wire : Value → Value) : Type 0 where
  pub wire_address : (a : Bytes) → wire (address a) ≡ string a
  pub wire_string : (s : Bytes) → wire (string s) ≡ string s
  pub wire_uint64 : (n : ℕ) → wire (uint64 n) ≡ uint64 n
  pub wire_big_int : (x : ℤ) → wire (big_int x) ≡ bytes (BigInt.bytes x)
  pub wire_nil : wire nil ≡ nil

abbrev pub unsigned : ℤ → ℤ
unsigned x = pos (abs x)

-- What the receiver has: no signature, unsigned ticks, and the codec's image of the parameters.
abbrev pub received : (Value → Value) → Transaction → Transaction
received wire tx = record tx {
  tick_cost = Option.map unsigned tx.tick_cost;
  ticks = Option.map unsigned tx.ticks;
  params = map wire tx.params;
  signature = none;
}

as_big-carried :
    (wire : Value → Value) (laws : IsWire wire) (o : Option ℤ)
    → as_big (carried wire (value (from_big o))) ≡ Option.map unsigned o
as_big-carried wire laws none = rw laws.wire_nil
as_big-carried wire laws (some x) = rw (laws.wire_big_int x) (ground (arith, set_bytes-bytes x))

-- By the codec's treatment of the types of a transaction's own fields, a transaction that went
-- through it comes out with every field but the signature; ticks lose their sign, and a parameter
-- is what the codec makes of it.
pub from_fields-to_fields :
    (wire : Value → Value)
    → IsWire wire
    → (tx : Transaction) → from_fields (map (carried wire) (to_fields tx)) ≡ ok (received wire tx)
unfolding from_fields to_fields
from_fields-to_fields wire laws tx = rw (
  laws.wire_address tx.to,
  laws.wire_address tx.sender,
  laws.wire_uint64 tx.nonce,
  laws.wire_string tx.method,
  as_big-carried wire laws tx.tick_cost,
  as_big-carried wire laws tx.ticks,
)
