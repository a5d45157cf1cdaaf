-- ===== src/Contract/Call.antt =====
-- `Call` of contract/contract.go, and the closure that casts a method's arguments by its types.
use toychain.Prelude.{Bool, true, not, List, [], ◌∷◌, ◌=ᵇ◌, ◌==◌, length, Bytes, if◌then◌else◌}
use toychain.Outcome
use toychain.Outcome.{Outcome, ok, err, panic, Message, message}
use toychain.Exec.{Exec, fail, lift, ◌>>=◌}
use toychain.Types.Value.{Value, address, uint64, int64}
use toychain.Types.Address.{Address}
use toychain.Platform.{Platform}
use toychain.Contract.World.{Frame}
use toychain.Contract.Cast.{cast_to_address}
use toychain.Contract.Token.{transfer, get_balance}

-- The bytes of "transfer" and "getBalance".
abbrev pub transfer_name : Bytes
transfer_name = b't' ∷ b'r' ∷ b'a' ∷ b'n' ∷ b's' ∷ b'f' ∷ b'e' ∷ b'r' ∷ []

abbrev pub get_balance_name : Bytes
get_balance_name = b'g' ∷ b'e' ∷ b't' ∷ b'B' ∷ b'a' ∷ b'l' ∷ b'a' ∷ b'n' ∷ b'c' ∷ b'e' ∷ []

-- The types of parameters that the closure tells apart: `addrType`, `uint64Type`, `int64Type`.
pub data ParamType : Type 0 where
  addr_type uint64_type int64_type unsupported : ParamType

-- One argument, cast to its parameter's type.
unfoldable pub cast_arg : ParamType → Value → Outcome Value
cast_arg ParamType.addr_type v = Outcome.◌>>=◌ (cast_to_address v) (λ a. ok (address a))
cast_arg ParamType.uint64_type (uint64 n) = ok (uint64 n)
cast_arg ParamType.uint64_type _ = err (message Message.expected_type)
cast_arg ParamType.int64_type (int64 n) = ok (int64 n)
cast_arg ParamType.int64_type _ = err (message Message.expected_type)
cast_arg ParamType.unsupported _ = err (message Message.unsupported_type)

cons_ok : Outcome Value → Outcome (List Value) → Outcome (List Value)
cons_ok (ok v) (ok vs) = ok (v ∷ vs)
cons_ok (ok v) (err e) = err e
cons_ok (ok v) panic = panic
cons_ok (err e) vs = err e
cons_ok panic vs = panic

-- The loop over the parameters, the lengths being equal.
unfoldable pub cast_args : List ParamType → List Value → Outcome (List Value)
unfolding cast_arg cons_ok
cast_args (t ∷ ts) (v ∷ vs) = cons_ok (cast_arg t v) (cast_args ts vs)
cast_args _ _ = ok []

module _ (p : Platform) where
  -- What reflection shows of a Go value that is to be a method, and what calling it does with the
  -- arguments after the context.
  pub record Func : Type 0 where
    pub is_func : Bool
    pub takes_context : Bool
    pub returns_result_and_error : Bool
    pub params : List ParamType
    pub body : List Value → Exec (Frame p) Value

  -- The function that `makeTypedCallClosure` returns.
  unfoldable pub typed_call : Func → List Value → Exec (Frame p) Value
  unfolding cast_args
  typed_call f args =
      if length f.params == length args
      then (do vs ← lift (cast_args f.params args); f.body vs)
      else fail (message Message.expected_args)

  unfoldable pub make_typed_call_closure : Func → Outcome (List Value → Exec (Frame p) Value)
  make_typed_call_closure f =
      if not f.is_func
      then err (message Message.not_a_function)
      else if not f.takes_context
      then err (message Message.first_not_context)
      else if not f.returns_result_and_error
      then err (message Message.bad_results)
      else ok (typed_call f)

  abbrev must : Outcome (List Value → Exec (Frame p) Value) → List Value → Exec (Frame p) Value
  must (ok f) args = f args
  must _ args = lift panic

  -- `mustTypedCallClosure`
  unfoldable pub must_typed_call_closure : Func → List Value → Exec (Frame p) Value
  unfolding make_typed_call_closure typed_call
  must_typed_call_closure f = must (make_typed_call_closure f)

  abbrev pub get_balance_body : List Value → Exec (Frame p) Value
  get_balance_body (address a ∷ []) = get_balance p a
  get_balance_body _ = lift panic

  -- `ftc.getBalance` as a value.
  abbrev pub get_balance_func : Func
  get_balance_func = record {
    is_func = true;
    takes_context = true;
    returns_result_and_error = true;
    params = ParamType.addr_type ∷ [];
    body = get_balance_body;
  }

  -- `Call`, from the address `from`.
  unfoldable pub call : Address → Bytes → List Value → Exec (Frame p) Value
  unfolding must_typed_call_closure
  call from method args =
      if method =ᵇ transfer_name
      then transfer p from args
      else if method =ᵇ get_balance_name
      then must_typed_call_closure get_balance_func args
      else fail (message Message.method_not_found)
