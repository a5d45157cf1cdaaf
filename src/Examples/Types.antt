-- ===== src/Examples/Types.antt =====
-- Concrete addresses, transactions and pools.
use toychain.Examples.Wire.{wire, wire-IsWire}
use toychain.Prelude.{◌≡◌, none, some, [], ◌∷◌, map, arith, All}
use toychain.Prelude.Int.{pos}
use toychain.Outcome.{ok}
use toychain.Types.Value.{address, big_int}
use toychain.Types.Hex.{IsByte}
use toychain.Types.Address.{
  to_text, parse_address, marshal_json, unmarshal_json, parse_address-to_text,
  unmarshal_json-marshal_json,
}
use toychain.Types.Transaction.{
  Transaction, to_fields, from_fields, carried, received, from_fields-to_fields,
}

are_bytes : All IsByte (18 ∷ 255 ∷ [])
are_bytes = (omega arith, (omega arith, tt))

parse_address-to_text_example : parse_address (to_text (18 ∷ 255 ∷ [])) ≡ ok (18 ∷ 255 ∷ [])
parse_address-to_text_example = parse_address-to_text (18 ∷ 255 ∷ []) are_bytes

unmarshal_json-marshal_json_example :
    unmarshal_json (marshal_json (18 ∷ 255 ∷ [])) ≡ ok (18 ∷ 255 ∷ [])
unmarshal_json-marshal_json_example = unmarshal_json-marshal_json (18 ∷ 255 ∷ []) are_bytes

abbrev tx : Transaction
tx = record {
  to = 9 ∷ [];
  sender = 1 ∷ [];
  nonce = 3;
  tick_cost = some (pos 300);
  ticks = none;
  method = b'm' ∷ [];
  params = address (2 ∷ []) ∷ big_int (pos 7) ∷ [];
  signature = none;
}

from_fields-to_fields_example :
    from_fields (map (carried wire) (to_fields tx)) ≡ ok (received wire tx)
from_fields-to_fields_example = from_fields-to_fields wire wire-IsWire tx
