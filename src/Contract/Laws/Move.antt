-- ===== src/Contract/Laws/Move.antt =====
-- What one successful call of `move` does to the balances, for every amount.
use toychain.Prelude.{◌≡◌, false, ◌=ᵇ◌, Bool-cases, inl, inr, arith, Bytes, if◌then◌else◌}
use toychain.Prelude.Int.{ℤ, pos, abs, ◌+ℤ◌, ◌-ℤ◌, ◌≤ℤ◌, ltb_ℤ}
use toychain.Outcome.{Outcome, ok}
use toychain.BigInt.{bytes, set_bytes, set_bytes-bytes}
use toychain.Types.Value.{Value, nil}
use toychain.Types.Address.{Address}
use toychain.Platform.{Platform}
use toychain.Platform.Laws.{IsHamt}
use toychain.Contract.World.{Frame}
use toychain.Contract.Token.{move, read_balance, write_balance}

-- The number that a lookup stands for: zero, if it found none.
abbrev pub amount_at : Outcome Bytes → ℤ
amount_at (ok b) = set_bytes b
amount_at _ = pos 0

module _ (p : Platform) where
  -- The balance of an address in a contract's memory.
  unfoldable pub balance : Frame p → Address → ℤ
  balance f a = amount_at (p.find f.world.store f.memory a)

  -- The balances that the two writes of a transfer leave, the receiver's being the last. A written
  -- number loses its sign.
  abbrev pub moved : Address → Address → ℤ → Frame p → Address → ℤ
  moved from to amount f a =
      if to =ᵇ a
      then pos (abs (balance f to +ℤ amount))
      else if from =ᵇ a
      then pos (abs (balance f from -ℤ amount))
      else balance f a

  pub balance_nonneg : (f : Frame p) (a : Address) → pos 0 ≤ℤ balance f a
  unfolding balance set_bytes
  balance_nonneg f a = ground arith

module _ (p : Platform) (from to : Address) (amount : ℤ) (f : Frame p) where
  -- The two writes that a successful `move` makes, one after the other.
  abbrev pub paid : Frame p
  paid = (write_balance p from (balance p f from -ℤ amount) f).1

  abbrev pub credited : Frame p
  credited = (write_balance p to (balance p f to +ℤ amount) paid).1

  pub move_steps :
      {v : Value}
      → (move p from to amount f).0 ≡ ok v
      → (ltb_ℤ (balance p f from) amount ≡ false)
        × ((write_balance p from (balance p f from -ℤ amount) f).0 ≡ ok tt)
        × ((write_balance p to (balance p f to +ℤ amount) paid).0 ≡ ok tt)
        × ((move p from to amount f).1 ≡ credited)
        × (v ≡ nil)
  unfolding move balance read_balance set_bytes
  move_steps h = ground arith

module _ (p : Platform) (laws : IsHamt p) where
  balance-write :
      (a b : Address) (n : ℤ) (g : Frame p)
      → (write_balance p a n g).0 ≡ ok tt
      → balance p (write_balance p a n g).1 b ≡ (if a =ᵇ b then pos (abs n) else balance p g b)
  unfolding balance write_balance
  balance-write a b n g h =
      rw (laws.find_set g.world.store a (bytes n) g.memory h b) (elim (Bool-cases (a =ᵇ b)) [
        | inl same ↦ rw (same, set_bytes-bytes n)
        | inr other ↦ rw other
      ])

module _ (p : Platform) (laws : IsHamt p) (from to : Address) (amount : ℤ) (f : Frame p) where
  pub move_balances :
      {v : Value}
      → (move p from to amount f).0 ≡ ok v
      → (a : Address) → balance p (move p from to amount f).1 a ≡ moved p from to amount f a
  move_balances h a =
      let (enough, wrote, credit, end, no_value) = move_steps p from to amount f h in
      let first = paid p from to amount f in
      rw (
        end,
        balance-write p laws to a (balance p f to +ℤ amount) first credit,
        balance-write p laws from a (balance p f from -ℤ amount) f wrote,
      )
