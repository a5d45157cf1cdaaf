-- ===== src/Contract/Cast.antt =====
-- `addressCast`, `numberCast` and `castToAddress` of contract/contract.go.
use toychain.Prelude.{Bool, Option, none, some, ◌∷◌, ◌&&◌, ◌==◌, Bytes, if◌then◌else◌}
use toychain.Prelude.Int.{ℤ}
use toychain.Outcome.{Outcome, ok, err, panic, Message, message}
use toychain.BigInt.{set_bytes}
use toychain.Types.Address.{Address, parse_address}
use toychain.Types.Decimal.{set_string}
use toychain.Types.Value.{Value, nil, address, string, bytes, float64, big_int}

-- `i[:2] == "0x"`, which panics on a text that is shorter.
unfoldable pub has_hex_prefix : Bytes → Outcome Bool
has_hex_prefix (a ∷ b ∷ rest) = ok (a == b'0' && b == b'x')
has_hex_prefix _ = panic

unfoldable pub address_cast : Value → Outcome Address
unfolding has_hex_prefix
address_cast (address a) = ok a
address_cast (string s) = elim (has_hex_prefix s) [
  | ok hex ↦ if hex then parse_address s else ok s
  | err e ↦ err e
  | panic ↦ panic
]
address_cast _ = err (message Message.first_must_be_address)

abbrev parsed : Option ℤ → Outcome ℤ
parsed (some n) = ok n
parsed none = err (message Message.not_a_number)

-- Any type but these four panics.
unfoldable pub number_cast : Value → Outcome ℤ
number_cast (string s) = parsed (set_string s)
number_cast (big_int n) = ok n
number_cast (float64 n) = ok n
number_cast (bytes b) = ok (set_bytes b)
number_cast _ = panic

-- `castToAddress`. `reflect.ValueOf(nil).Interface()` panics.
unfoldable pub cast_to_address : Value → Outcome Address
cast_to_address (address a) = ok a
cast_to_address (string s) = ok s
cast_to_address nil = panic
cast_to_address _ = err (message Message.not_an_address_string)
