-- ===== src/Outcome.antt =====
-- What a Go call comes back with: a value, an error value, or a panic.
--
-- The errors of the repository, by the place that makes them. `wrap` is an error that
-- `fmt.Errorf("...: %s", err)` or `errors.Wrap` makes of another one: a new value, which is
-- neither `hamt.ErrNotFound` nor a `reverter` any more.
use toychain.Prelude.{ℕ, ◌≡◌, refl, ◌⊎◌, inl, inr}

-- The texts of the errors that the repository makes itself.
pub data Message : Type 0 where
  method_not_found transfer_arity not_enough_funds not_a_number first_must_be_address : Message
  expected_args expected_type unsupported_type not_an_address_string : Message
  invalid_nonce no_contract_code expected_six_fields : Message
  state_root_mismatch not_better new_block_not_better timed_out bad_hex : Message
  not_a_function first_not_context bad_results amount_not_parsed not_swarm unexpected_reply :
      Message

-- The contexts that an error is wrapped in.
pub data Context : Type 0 where
  invalid_account get_actor get_contract state_load store_get set_actor : Context
  target_balance write_from write_to : Context
  check_block fetch_block load_state validate put_block approved_state : Context
  mined_state flush_state marshal_transaction invalid_peer_address connect_failure : Context

pub data Error : Type 0 where
  -- `hamt.ErrNotFound`
  not_found : Error
  -- any other error of a library, told apart by a number
  library : ℕ → Error
  message : Message → Error
  wrap : Context → Error → Error
  -- `*revertError`
  revert : Error → Error

pub data Outcome {ℓ} (A : Type ℓ) : Type ℓ where
  ok : A → Outcome A
  err : Error → Outcome A
  panic : Outcome A

infixl 5 ◌>>=◌ ◌>>◌
abbrev pub ◌>>=◌ {ℓ κ} : {A : Type ℓ} {B : Type κ} → Outcome A → (A → Outcome B) → Outcome B
ok a >>= f = f a
err e >>= f = err e
panic >>= f = panic

abbrev pub ◌>>◌ {ℓ} : {B : Type ℓ} → Outcome (Unit {0}) → Outcome B → Outcome B
m >> k = m >>= λ _. k

-- `if err != nil { return ..., fmt.Errorf("context: %s", err) }`
abbrev pub wrapping {ℓ} : {A : Type ℓ} → Context → Outcome A → Outcome A
wrapping c (ok a) = ok a
wrapping c (err e) = err (wrap c e)
wrapping c panic = panic

pub ok_injective {ℓ} : {A : Type ℓ} {a b : A} → ok a ≡ ok b → a ≡ b
ok_injective h = cc

pub wrapping-eq-ok {ℓ} :
    {A : Type ℓ} {a : A} (c : Context) (r : Outcome A) → wrapping c r ≡ ok a → r ≡ ok a
wrapping-eq-ok c (ok b) h = h
wrapping-eq-ok c (err e) h = cc
wrapping-eq-ok c panic h = cc

-- A split on a result that keeps the equation.
pub Outcome-cases {ℓ} :
    {A : Type ℓ} (r : Outcome A)
    → ((a : A) × (r ≡ ok a)) ⊎ ((e : Error) × (r ≡ err e)) ⊎ (r ≡ panic)
Outcome-cases (ok a) = inl (a, refl)
Outcome-cases (err e) = inr (inl (e, refl))
Outcome-cases panic = inr (inr refl)

-- A chain that gives a value went through a value.
pub >>=-eq-ok {ℓ κ} :
    {A : Type ℓ} {B : Type κ} (r : Outcome A) (f : A → Outcome B) {b : B}
    → r >>= f ≡ ok b
    → (a : A) × (r ≡ ok a) × (f a ≡ ok b)
>>=-eq-ok (ok a) f h = (a, refl, h)
>>=-eq-ok (err e) f h = cc
>>=-eq-ok panic f h = cc
