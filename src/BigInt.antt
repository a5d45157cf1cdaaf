-- ===== src/BigInt.antt =====
-- `big.Int.Bytes` and `big.Int.SetBytes` of Go's math/big: big-endian bytes, as short as possible.
use toychain.Prelude.{
  ℕ, zero, suc, ◌+◌, ◌*◌, ◌/◌, ◌%◌, ◌≤◌, ◌≡◌, true, ap, ◌∙◌, [], ◌∷◌, arith, ◌==◌, Bytes,
  if◌then◌else◌, Bool-cases, inl, inr,
}
use toychain.Prelude.Int.{ℤ, pos, abs}

-- Each round reads one byte; the accumulator holds what stands before it.
set_bytes_from : ℕ → Bytes → ℕ
set_bytes_from n [] = n
set_bytes_from n (b ∷ bs) = set_bytes_from (n * 256 + b) bs

unfoldable pub set_bytes : Bytes → ℤ
unfolding set_bytes_from
set_bytes bs = pos (set_bytes_from 0 bs)

-- The bytes of `n`, in front of `rest`. A round divides by 256, so `n` rounds are enough.
bytes_before : ℕ → ℕ → Bytes → Bytes
bytes_before zero n rest = rest
bytes_before (suc fuel) n rest =
    let more = bytes_before fuel (n / 256) (n % 256 ∷ rest) in if n == 0 then rest else more

-- `x.Bytes()` gives the absolute value: the sign is lost.
unfoldable pub bytes : ℤ → Bytes
unfolding bytes_before
bytes x = bytes_before (abs x) (abs x) []

div256 : (n : ℕ) → n / 256 * 256 + n % 256 ≡ n
div256 n = omega arith

eq_of_test : (n m : ℕ) → (n == m) ≡ true → n ≡ m
eq_of_test n m h = ground arith

set_bytes_from-bytes_before :
    (fuel n : ℕ) (rest : Bytes)
    → n ≤ fuel
    → set_bytes_from 0 (bytes_before fuel n rest) ≡ set_bytes_from n rest
unfolding set_bytes_from bytes_before
set_bytes_from-bytes_before zero n rest h = ap (λ (m : ℕ). set_bytes_from m rest) (omega arith)
set_bytes_from-bytes_before (suc fuel) n rest h = elim (Bool-cases (n == 0)) [
  | inl none_left ↦ rw (none_left, ap (λ (m : ℕ). set_bytes_from m rest) (eq_of_test n 0 none_left))
  | inr more ↦ rw more (
      set_bytes_from-bytes_before fuel (n / 256) (n % 256 ∷ rest) (ground arith)
      ∙ ap (λ (m : ℕ). set_bytes_from m rest) (div256 n))
]

-- What is written with `Bytes` and read with `SetBytes` is the absolute value.
pub set_bytes-bytes : (x : ℤ) → set_bytes (bytes x) ≡ pos (abs x)
unfolding set_bytes bytes
set_bytes-bytes x = ap pos (set_bytes_from-bytes_before (abs x) (abs x) [] (omega arith))
