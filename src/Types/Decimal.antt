-- ===== src/Types/Decimal.antt =====
-- Go's `big.Int.SetString(s, 10)`: an optional sign, then decimal digits, at least one.
use toychain.Prelude.{
  ℕ, zero, suc, ◌+◌, ◌-◌, ◌*◌, ◌≡◌, refl, ◌&&◌, Option, none, some, [], ◌∷◌, ◌==◌, leb, Bytes,
  if◌then◌else◌,
}
use toychain.Prelude.Int.{ℤ, pos, negsuc}
use mathlib.Core.Option

unfoldable pub digits_from : ℕ → Bytes → Option ℕ
digits_from n [] = some n
digits_from n (c ∷ rest) =
    let more = digits_from (n * 10 + (c - 48)) rest in if leb 48 c && leb c 57 then more else none

abbrev digits : Bytes → Option ℕ
digits [] = none
digits (c ∷ rest) = digits_from 0 (c ∷ rest)

-- The number under a minus sign.
abbrev pub negated : ℕ → ℤ
negated zero = pos 0
negated (suc n) = negsuc n

unfoldable pub set_string : Bytes → Option ℤ
unfolding digits_from
set_string [] = none
set_string (c ∷ rest) =
    if c == b'-'
    then Option.map negated (digits rest)
    else if c == b'+'
    then Option.map pos (digits rest)
    else Option.map pos (digits (c ∷ rest))

set_string_examples :
    (set_string (b'-' ∷ b'5' ∷ []) ≡ some (negsuc 4))
    × (set_string (b'1' ∷ b'2' ∷ []) ≡ some (pos 12))
    × (set_string (b'1' ∷ b'_' ∷ []) ≡ none)
unfolding set_string
set_string_examples = (refl, refl, refl)
