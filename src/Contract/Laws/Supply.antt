-- ===== src/Contract/Laws/Supply.antt =====
-- The sum of balances under a transfer.
use toychain.Prelude.{
  ℕ, ◌+◌, ◌≡◌, refl, ap, Bool, false, ◌||◌, List, [], ◌∷◌, ◌=ᵇ◌, =ᵇ→eq, =ᵇ-symm, Bool-cases, inl,
  inr, arith, if◌then◌else◌,
}
use toychain.Prelude.Int.{ℤ, pos, pos_part, ◌+ℤ◌, ◌-ℤ◌, ◌≤ℤ◌}
use toychain.Outcome.{ok}
use toychain.Types.Value.{Value}
use toychain.Types.Address.{Address}
use toychain.Platform.{Platform}
use toychain.Platform.Laws.{IsHamt}
use toychain.Contract.World.{Frame}
use toychain.Contract.Token.{transfer}
use toychain.Contract.Laws.Move.{balance, balance_nonneg}
use toychain.Contract.Laws.Transfer.{Reads, transfer_moves_funds}

abbrev pub contains : Address → List Address → Bool
contains a [] = false
contains a (x ∷ xs) = a =ᵇ x || contains a xs

-- No address is listed twice.
abbrev pub IsDistinct : List Address → Type 0
IsDistinct [] = Unit
IsDistinct (x ∷ xs) = (contains x xs ≡ false) × IsDistinct xs

-- The sum of what the addresses of a list hold.
abbrev pub total : (Address → ℤ) → List Address → ℕ
total b [] = 0
total b (x ∷ xs) = pos_part (b x) + total b xs

abbrev pub if_listed : Address → List Address → ℕ → ℕ
if_listed a xs n = if contains a xs then n else 0

-- What a change of balances that moves `n` from one address to another is.
pub record Shift (from to : Address) (n : ℕ) (before after : Address → ℤ) : Type 0 where
  pub apart : (from =ᵇ to) ≡ false
  pub paid : pos_part (after from) + n ≡ pos_part (before from)
  pub credited : pos_part (after to) ≡ pos_part (before to) + n
  pub others : (a : Address) → (from =ᵇ a) ≡ false → (to =ᵇ a) ≡ false → after a ≡ before a

pub if_listed-cons :
    (a x : Address) (xs : List Address) (n : ℕ)
    → contains x xs ≡ false
    → if_listed a (x ∷ xs) n ≡ (if a =ᵇ x then n else 0) + if_listed a xs n
if_listed-cons a x xs n new = elim (Bool-cases (a =ᵇ x)) [
  | inl same ↦
      let elsewhere : contains a xs ≡ false = rw (=ᵇ→eq a x same) new in
      rw (same, elsewhere) (omega arith)
  | inr other ↦ rw other (omega arith)
]

shift_paid :
    (n : ℕ) (b : ℤ) {c : ℤ} → pos 0 ≤ℤ b → pos n ≤ℤ b → c ≡ b -ℤ pos n → pos_part c + n ≡ pos_part b
unfolding ◌-ℤ◌
shift_paid n b h enough e = ground arith

shift_credited : (n : ℕ) (b : ℤ) {c : ℤ} → pos 0 ≤ℤ b → c ≡ b +ℤ pos n → pos_part c ≡ pos_part b + n
unfolding ◌+ℤ◌
shift_credited n b h e = ground arith

module _ (from to : Address) (n : ℕ) (before after : Address → ℤ)
    (s : Shift from to n before after) where
  -- One address' part of the sums.
  shift_at :
      (a : Address)
      → pos_part (after a) + (if from =ᵇ a then n else 0)
        ≡ pos_part (before a) + (if to =ᵇ a then n else 0)
  shift_at a = elim (Bool-cases (from =ᵇ a)) [
    | inl at_from ↦
        let same : from ≡ a = =ᵇ→eq from a at_from in
        let not_to : (to =ᵇ a) ≡ false = cc (s.apart, =ᵇ-symm to from, same) in
        rw (at_from, not_to)
          (omega
            (arith, s.paid, ap (λ b. pos_part (after b)) same, ap (λ b. pos_part (before b)) same))
    | inr not_from ↦ elim (Bool-cases (to =ᵇ a)) [
      | inl at_to ↦
          let same : to ≡ a = =ᵇ→eq to a at_to in
          rw (not_from, at_to)
            (omega (
              arith,
              s.credited,
              ap (λ b. pos_part (after b)) same,
              ap (λ b. pos_part (before b)) same,
            ))
      | inr not_to ↦ rw (not_from, not_to) (omega (arith, ap pos_part (s.others a not_from not_to)))
    ]
  ]

  total-shift :
      (xs : List Address)
      → IsDistinct xs
      → total after xs + if_listed from xs n ≡ total before xs + if_listed to xs n
  total-shift [] d = refl
  total-shift (x ∷ xs) d = omega (
    arith,
    shift_at x,
    total-shift xs d.1,
    if_listed-cons from x xs n d.0,
    if_listed-cons to x xs n d.0,
  )

-- By the laws of the HAMT, a successful transfer whose arguments are an address other than the
-- sender's and an amount that is not negative neither makes nor destroys money: over any distinct
-- addresses that list both, or neither, the sum stays; it falls by the amount where only the
-- sender is listed, and rises by it where only the receiver is.
pub total-transfer :
    (p : Platform)
    → IsHamt p
    → (from to : Address) (args : List Value) (n : ℕ) (f : Frame p) {v : Value}
    → Reads args to (pos n)
    → (from =ᵇ to) ≡ false
    → (transfer p from args f).0 ≡ ok v
    → (accounts : List Address) → IsDistinct accounts
    → total (balance p (transfer p from args f).1) accounts + if_listed from accounts n
      ≡ total (balance p f) accounts + if_listed to accounts n
total-transfer p laws from to args n f r apart h =
    let (enough, paid, credited, others) = transfer_moves_funds p laws from to args n f r apart h in
    total-shift from to n (balance p f) (balance p (transfer p from args f).1) (record {
      apart = apart;
      paid = shift_paid n (balance p f from) (balance_nonneg p f from) enough paid;
      credited = shift_credited n (balance p f to) (balance_nonneg p f to) credited;
      others = others;
    })
