-- ===== src/Types/Address.antt =====
-- `Address` of types/types.go: a string of raw bytes, and its text and JSON forms.
use toychain.Prelude.{
  ℕ, ◌≡◌, refl, ◌&&◌, Option, none, some, List, [], ◌∷◌, ◌++◌, ◌==◌, Bytes, All, if◌then◌else◌,
}
use toychain.Outcome.{Outcome, ok, err, panic, Message, message}
use toychain.Types.Hex.{encode, decode, decode-encode, IsByte}

abbrev pub Address : Type 0
Address = Bytes

-- `Address.String`
unfoldable pub to_text : Address → Bytes
to_text a = b'0' ∷ b'x' ∷ encode a

-- What `hex.DecodeString` hands back, as the caller passes it on.
abbrev decoded : Option Bytes → Outcome Address
decoded (some b) = ok b
decoded none = err (message Message.bad_hex)

-- `ParseAddress`. `s[:2]` panics on a text that is shorter.
unfoldable pub parse_address : Bytes → Outcome Address
parse_address [] = panic
parse_address (a ∷ []) = panic
parse_address (a ∷ b ∷ rest) =
    decoded (if a == b'0' && b == b'x' then decode rest else decode (a ∷ b ∷ rest))

-- `json.Marshal` of a string without a byte that JSON escapes: it stands between two quotes.
abbrev pub quote : Bytes → Bytes
quote s = 34 ∷ (s ++ 34 ∷ [])

-- `Address.MarshalJSON`
unfoldable pub marshal_json : Address → Bytes
unfolding to_text
marshal_json a = quote (to_text a)

-- `l[:len(l)-1]`; there is none for an empty slice.
abbrev pub drop_last : List ℕ → Option (List ℕ)
drop_last [] = none
drop_last (x ∷ []) = some []
drop_last (x ∷ y ∷ l) = elim (drop_last (y ∷ l)) [ none ↦ none | some r ↦ some (x ∷ r) ]

-- `Address.UnmarshalJSON`: `b[3 : len(b)-1]` panics below four bytes, and the three before are not
-- looked at.
unfoldable pub unmarshal_json : Bytes → Outcome Address
unmarshal_json (x ∷ y ∷ z ∷ rest) = elim (drop_last rest) [
  | none ↦ panic
  | some digits ↦ decoded (decode digits)
]
unmarshal_json _ = panic

drop_last-append : (l : List ℕ) (x : ℕ) → drop_last (l ++ x ∷ []) ≡ some l
drop_last-append [] x = refl
drop_last-append (y ∷ []) x = refl
drop_last-append (y ∷ z ∷ l) x = cc (drop_last-append (z ∷ l) x)

-- Parsing the text of an address, whose elements are bytes, gives the address back.
pub parse_address-to_text : (a : Address) → All IsByte a → parse_address (to_text a) ≡ ok a
unfolding parse_address to_text
parse_address-to_text a h = rw (decode-encode a h)

-- The JSON form of an address, whose elements are bytes, is read back as the address.
pub unmarshal_json-marshal_json :
    (a : Address) → All IsByte a → unmarshal_json (marshal_json a) ≡ ok a
unfolding unmarshal_json marshal_json
unmarshal_json-marshal_json a h =
    rw (drop_last-append (encode a) 34, unmarshal_json, decode-encode a h)
