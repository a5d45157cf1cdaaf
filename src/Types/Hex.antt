-- ===== src/Types/Hex.antt =====
-- The part of Go's encoding/hex that types/types.go uses.
use toychain.Prelude.{
  ℕ, ◌+◌, ◌-◌, ◌*◌, ◌/◌, ◌%◌, ◌<◌, ◌≡◌, refl, ap, ◌&&◌, Option, none, some, [], ◌∷◌, arith, ltb,
  leb, Bytes, All, if◌then◌else◌,
}

-- The character of a digit below 16, in lower case.
abbrev pub hex_char : ℕ → ℕ
hex_char n = if ltb n 10 then n + 48 else n + 87

-- `fromHexChar`: both cases are read.
abbrev pub from_hex_char : ℕ → Option ℕ
from_hex_char c =
    if leb 48 c && leb c 57
    then some (c - 48)
    else if leb 97 c && leb c 102
    then some (c - 87)
    else if leb 65 c && leb c 70
    then some (c - 55)
    else none

abbrev join_digits : Option ℕ → Option ℕ → Option ℕ
join_digits (some h) (some l) = some (h * 16 + l)
join_digits (some h) none = none
join_digits none l = none

abbrev cons? : Option ℕ → Option Bytes → Option Bytes
cons? (some b) (some bs) = some (b ∷ bs)
cons? (some b) none = none
cons? none bs = none

-- `hex.EncodeToString`
unfoldable pub encode : Bytes → Bytes
encode [] = []
encode (b ∷ bs) = hex_char (b / 16) ∷ hex_char (b % 16) ∷ encode bs

-- `hex.DecodeString`: an odd length and a byte that is no digit are errors.
unfoldable pub decode : Bytes → Option Bytes
decode [] = some []
decode (a ∷ []) = none
decode (a ∷ b ∷ rest) = cons? (join_digits (from_hex_char a) (from_hex_char b)) (decode rest)

from_hex_char-hex_char : (n : ℕ) → n < 16 → from_hex_char (hex_char n) ≡ some n
from_hex_char-hex_char n h = ground arith

abbrev pub IsByte : ℕ → Type 0
IsByte b = b < 256

join-hex_char :
    (b : ℕ)
    → b < 256
    → join_digits (from_hex_char (hex_char (b / 16))) (from_hex_char (hex_char (b % 16))) ≡ some b
join-hex_char b h =
    let high = from_hex_char-hex_char (b / 16) (omega arith) in
    let low = from_hex_char-hex_char (b % 16) (omega arith) in
    let whole : b / 16 * 16 + b % 16 ≡ b = omega arith in
    cc (high, low, ap (λ (n : ℕ). some n) whole)

pub decode-encode : (bs : Bytes) → All IsByte bs → decode (encode bs) ≡ some bs
unfolding encode decode
decode-encode [] h = refl
decode-encode (b ∷ bs) h = cc (join-hex_char b h.0, decode-encode bs h.1)
