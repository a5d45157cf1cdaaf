-- ===== src/Contract/Token.antt =====
-- `ToychainTokenContract.transfer` and `getBalance` of contract/contract.go.
use toychain.Prelude.{none, List, [], ◌∷◌, Bytes, if◌then◌else◌}
use toychain.Prelude.Int.{ℤ, ◌+ℤ◌, ◌-ℤ◌, ltb_ℤ}
use toychain.Outcome.{
  Outcome, ok, err, panic, not_found, Context, wrapping, Message, message, revert,
}
use toychain.Exec.{Exec, pure, fail, lift, ◌>>=◌, ◌>>◌}
use toychain.BigInt.{bytes, set_bytes}
use toychain.Types.Value.{Value, nil, big_int}
use toychain.Types.Address.{Address}
use toychain.Platform.{Platform, Actor}
use toychain.Contract.World.{Frame, get_actor, set_actor, in_world, get_key, set_key}
use toychain.Contract.Cast.{address_cast, number_cast}

-- `&Actor{}`
abbrev pub blank_actor : Actor
blank_actor = record { code = none; memory = none; nonce = 0 }

-- `if err != nil && err != hamt.ErrNotFound`: a missing key reads as no bytes.
abbrev pub as_balance : Outcome Bytes → Outcome ℤ
as_balance (ok b) = ok (set_bytes b)
as_balance (err not_found) = ok (set_bytes [])
as_balance (err e) = err e
as_balance panic = panic

module _ (p : Platform) where
  -- The `switch err` after `GetActor`: a missing actor is made.
  abbrev pub on_actor : Address → Outcome Actor → Exec (Frame p) (Unit {0})
  on_actor a (ok act) = pure tt
  on_actor a (err not_found) = in_world p (set_actor p a blank_actor)
  on_actor a (err e) = fail e
  on_actor a panic = lift panic

  unfoldable pub ensure_actor : Address → Exec (Frame p) (Unit {0})
  unfolding get_actor
  ensure_actor a f = on_actor a (get_actor p a f.world).0 f

  -- A balance: `SetBytes` of what `Get` found.
  unfoldable pub read_balance : Address → Exec (Frame p) ℤ
  unfolding get_key
  read_balance a f = (as_balance (get_key p a f).0, f)

  unfoldable pub write_balance : Address → ℤ → Exec (Frame p) (Unit {0})
  unfolding set_key
  write_balance a n = set_key p a (bytes n)

  abbrev pub in_context : {A : Type 0} → Context → Exec (Frame p) A → Exec (Frame p) A
  in_context c m f = let (r, f') = m f in (wrapping c r, f')

  -- The part of `transfer` that moves the amount.
  unfoldable pub move : Address → Address → ℤ → Exec (Frame p) Value
  move from to amount = do
    from_balance ← read_balance from
    if ltb_ℤ from_balance amount then fail (revert (message Message.not_enough_funds)) else do
      to_balance ← in_context Context.target_balance (read_balance to)
      in_context Context.write_from (write_balance from (from_balance -ℤ amount))
      in_context Context.write_to (write_balance to (to_balance +ℤ amount))
      pure nil

  -- `transfer`, of a call from `from`.
  unfoldable pub transfer : Address → List Value → Exec (Frame p) Value
  unfolding ensure_actor move
  transfer from (to_arg ∷ amount_arg ∷ []) = do
    to ← lift (address_cast to_arg)
    amount ← lift (number_cast amount_arg)
    ensure_actor to
    move from to amount
  transfer from _ = fail (revert (message Message.transfer_arity))

  -- `getBalance`: here a missing key is an error.
  unfoldable pub get_balance : Address → Exec (Frame p) Value
  unfolding get_key
  get_balance a = do data' ← get_key p a; pure (big_int (set_bytes data'))
