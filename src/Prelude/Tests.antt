-- ===== src/Prelude/Tests.antt =====
-- Boolean tests on the native numbers and on byte strings, and the conditional.
use Prim.Native.Nat.{ℕ, ◌≤◌, ◌<◌, compare, Ordering}
use mathlib.Core.Path.{◌≡◌, refl}
use mathlib.Core.Logic.{◌↔◌, ◌⊎◌, inl, inr}
use mathlib.Core.Bool.{Bool, true, false, ◌&&◌}
use mathlib.Core.List.{List, [], ◌∷◌}
use mathlib.Core.Option.{Option, none, some}
use native.Mathlib.Omega.{arith}

abbrev pub ltb : ℕ → ℕ → Bool
ltb a b = elim (compare a b) [ Ordering.lt ↦ true | _ ↦ false ]

abbrev pub leb : ℕ → ℕ → Bool
leb a b = elim (compare a b) [ Ordering.gt ↦ false | _ ↦ true ]

infix 50 ◌==◌
abbrev pub ◌==◌ : ℕ → ℕ → Bool
a == b = elim (compare a b) [ Ordering.eq ↦ true | _ ↦ false ]

infix 1 if◌then◌else◌
abbrev pub if◌then◌else◌ {ℓ} : {A : Type ℓ} → Bool → A → A → A
if true then x else y = x
if false then x else y = y

pub leb→le : (a b : ℕ) → leb a b ≡ true → a ≤ b
leb→le a b h = ground arith

pub le→leb : (a b : ℕ) → a ≤ b → leb a b ≡ true
le→leb a b h = ground arith

pub lt→ltb : (a b : ℕ) → a < b → ltb a b ≡ true
lt→ltb a b h = ground arith

-- A split on a computed value that keeps the equation.
pub Bool-cases : (b : Bool) → (b ≡ true) ⊎ (b ≡ false)
Bool-cases true = inl refl
Bool-cases false = inr refl

pub Option-cases {ℓ} : {A : Type ℓ} (o : Option A) → (o ≡ none) ⊎ ((a : A) × (o ≡ some a))
Option-cases none = inl refl
Option-cases (some a) = inr (a, refl)

-- A Go string or byte slice: its bytes, each below 256.
abbrev pub Bytes : Type 0
Bytes = List ℕ

-- `==` on Go strings.
infix 50 ◌=ᵇ◌
unfoldable pub ◌=ᵇ◌ : Bytes → Bytes → Bool
[] =ᵇ [] = true
[] =ᵇ (y ∷ ys) = false
(x ∷ xs) =ᵇ [] = false
(x ∷ xs) =ᵇ (y ∷ ys) = x == y && xs =ᵇ ys

pub =ᵇ→eq : (a b : Bytes) → (a =ᵇ b) ≡ true → a ≡ b
unfolding ◌=ᵇ◌
=ᵇ→eq [] [] h = refl
=ᵇ→eq [] (y ∷ ys) h = cc
=ᵇ→eq (x ∷ xs) [] h = cc
=ᵇ→eq (x ∷ xs) (y ∷ ys) h = ground (arith, =ᵇ→eq xs ys)

pub =ᵇ-self : (a : Bytes) → (a =ᵇ a) ≡ true
unfolding ◌=ᵇ◌
=ᵇ-self [] = refl
=ᵇ-self (x ∷ xs) = ground (arith, =ᵇ-self xs)

pub =ᵇ_iff : (a b : Bytes) → ((a =ᵇ b) ≡ true) ↔ (a ≡ b)
=ᵇ_iff a b = (=ᵇ→eq a b, λ e. ground (arith, e, =ᵇ-self a))

pub =ᵇ-symm : (a b : Bytes) → (a =ᵇ b) ≡ (b =ᵇ a)
unfolding ◌=ᵇ◌
=ᵇ-symm [] [] = refl
=ᵇ-symm [] (y ∷ ys) = refl
=ᵇ-symm (x ∷ xs) [] = refl
=ᵇ-symm (x ∷ xs) (y ∷ ys) = ground (arith, =ᵇ-symm xs ys)
