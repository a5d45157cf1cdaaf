-- ===== src/Contract/Laws/Transfer.antt =====
-- `transfer` of contract/contract.go on each of its branches.
use toychain.Prelude.{ℕ, suc, ◌≡◌, false, List, [], ◌∷◌, ◌=ᵇ◌, =ᵇ-self, =ᵇ-symm, arith, ap}
use toychain.Prelude.Int.{ℤ, pos, negsuc, abs, ◌+ℤ◌, ◌-ℤ◌, ◌≤ℤ◌, ltb_ℤ}
use toychain.Outcome.{ok}
use toychain.Exec.{◌>>=◌, >>=-eq-ok}
use toychain.Types.Value.{Value}
use toychain.Types.Address.{Address}
use toychain.Platform.{Platform}
use toychain.Platform.Laws.{IsHamt}
use toychain.Contract.World.{Frame, set_actor}
use toychain.Contract.Cast.{address_cast, number_cast}
use toychain.Contract.Token.{transfer, move, ensure_actor}
use toychain.Contract.Laws.Move.{balance, balance_nonneg, move_balances, move_steps, moved}

-- What `transfer` reads its two arguments as.
pub record Reads (args : List Value) (to : Address) (amount : ℤ) : Type 0 where
  pub to_arg : Value
  pub amount_arg : Value
  pub two : args ≡ to_arg ∷ amount_arg ∷ []
  pub is_address : address_cast to_arg ≡ ok to
  pub is_number : number_cast amount_arg ≡ ok amount

unsigned_sub : (n : ℕ) (b : ℤ) → pos n ≤ℤ b → pos (abs (b -ℤ pos n)) ≡ b -ℤ pos n
unfolding ◌-ℤ◌
unsigned_sub n b h = ground arith

unsigned_add : (n : ℕ) (b : ℤ) → pos 0 ≤ℤ b → pos (abs (b +ℤ pos n)) ≡ b +ℤ pos n
unfolding ◌+ℤ◌
unsigned_add n b h = ground arith

unsigned_sub_negsuc : (n : ℕ) (b : ℤ) → pos 0 ≤ℤ b → pos (abs (b -ℤ negsuc n)) ≡ b +ℤ pos (suc n)
unfolding ◌+ℤ◌ ◌-ℤ◌
unsigned_sub_negsuc n b h = ground arith

add_negsuc : (n : ℕ) (b : ℤ) → b +ℤ negsuc n ≡ b -ℤ pos (suc n)
unfolding ◌+ℤ◌ ◌-ℤ◌
add_negsuc n b = ground arith

module _ (p : Platform) where
  -- Making an actor changes the root only.
  pub ensure_actor-memory : (a : Address) (f : Frame p) → (ensure_actor p a f).1.memory ≡ f.memory
  unfolding ensure_actor set_actor
  ensure_actor-memory a f = ground arith

  pub ensure_actor-store :
      (a : Address) (f : Frame p) → (ensure_actor p a f).1.world.store ≡ f.world.store
  unfolding ensure_actor set_actor
  ensure_actor-store a f = ground arith

  pub ensure_actor-balance :
      (a : Address) (f : Frame p) (b : Address) → balance p (ensure_actor p a f).1 b ≡ balance p f b
  unfolding balance
  ensure_actor-balance a f b = cc (ensure_actor-memory a f, ensure_actor-store a f)

  -- A call of `transfer` is, after its casts, `ensure_actor` and then `move`.
  pub transfer-eq-move :
      (from to : Address) (args : List Value) (amount : ℤ) (f : Frame p)
      → Reads args to amount
      → transfer p from args f ≡ (ensure_actor p to >>= λ _. move p from to amount) f
  unfolding transfer
  transfer-eq-move from to args amount f r = rw (r.two, ◌>>=◌, r.is_address, r.is_number)

  -- A successful transfer of any amount: the sender's balance was enough, and the balances are those
  -- that the two writes leave.
  pub transfer_balances :
      IsHamt p
      → (from to : Address) (args : List Value) (amount : ℤ) (f : Frame p) {v : Value}
      → Reads args to amount
      → (transfer p from args f).0 ≡ ok v
      → (ltb_ℤ (balance p f from) amount ≡ false)
        × ((a : Address) → balance p (transfer p from args f).1 a ≡ moved p from to amount f a)
  transfer_balances laws from to args amount f {v} r h =
      let same = transfer-eq-move from to args amount f r in
      let (u, made, rest) =
        >>=-eq-ok (ensure_actor p to) (λ _. move p from to amount) f {b = v} (rw (← same) h) in
      let done : (move p from to amount (ensure_actor p to f).1).0 ≡ ok v = cc (h, same, rest) in
      let g : Frame p = (ensure_actor p to f).1 in
      let (enough, _, _, _, _) = move_steps p from to amount g done in
      let kept = ensure_actor-balance to f in
      (
        rw (← kept from) enough,
        λ a.
            rw (
              same,
              rest,
              move_balances p laws from to amount g done a,
              kept to,
              kept from,
              kept a,
            ),
      )

  -- By the laws of the HAMT, a successful transfer whose arguments are another address and an
  -- amount that is not negative takes exactly that amount from the sender, who had it, and gives
  -- it to the receiver; no other balance changes.
  pub transfer_moves_funds :
      IsHamt p
      → (from to : Address) (args : List Value) (n : ℕ) (f : Frame p) {v : Value}
      → Reads args to (pos n)
      → (from =ᵇ to) ≡ false
      → (transfer p from args f).0 ≡ ok v
      → (pos n ≤ℤ balance p f from)
        × (balance p (transfer p from args f).1 from ≡ balance p f from -ℤ pos n)
        × (balance p (transfer p from args f).1 to ≡ balance p f to +ℤ pos n)
        × ((a : Address)
            → (from =ᵇ a) ≡ false
            → (to =ᵇ a) ≡ false
            → balance p (transfer p from args f).1 a ≡ balance p f a)
  transfer_moves_funds laws from to args n f {v} r apart h =
      let (enough, after) = transfer_balances laws from to args (pos n) f r h in
      let covered : pos n ≤ℤ balance p f from = ground (arith, enough) in
      (
        covered,
        rw (after from, =ᵇ-symm to from, apart, =ᵇ-self from)
            (unsigned_sub n (balance p f from) covered),
        rw (after to, =ᵇ-self to) (unsigned_add n (balance p f to) (balance_nonneg p f to)),
        λ a not_from not_to. rw (after a, not_to, not_from),
      )

  -- By the laws of the HAMT, a successful transfer to oneself of an amount that is not negative
  -- adds the amount to one's balance, since the receiver's balance was read before the sender's
  -- was written; no other balance changes.
  pub self_transfer_mints :
      IsHamt p
      → (from : Address) (args : List Value) (n : ℕ) (f : Frame p) {v : Value}
      → Reads args from (pos n)
      → (transfer p from args f).0 ≡ ok v
      → (balance p (transfer p from args f).1 from ≡ balance p f from +ℤ pos n)
        × ((a : Address)
            → (from =ᵇ a) ≡ false
            → balance p (transfer p from args f).1 a ≡ balance p f a)
  self_transfer_mints laws from args n f {v} r h =
      let (enough, after) = transfer_balances laws from from args (pos n) f r h in
      (
        rw (after from, =ᵇ-self from) (unsigned_add n (balance p f from) (balance_nonneg p f from)),
        λ a not_from. rw (after a, not_from),
      )

  -- By the laws of the HAMT, a successful transfer of a negative amount to another address adds
  -- its absolute value to the sender's balance, and leaves the receiver the absolute value of the
  -- difference.
  pub negative_transfer_takes :
      IsHamt p
      → (from to : Address) (args : List Value) (n : ℕ) (f : Frame p) {v : Value}
      → Reads args to (negsuc n)
      → (from =ᵇ to) ≡ false
      → (transfer p from args f).0 ≡ ok v
      → (balance p (transfer p from args f).1 from ≡ balance p f from +ℤ pos (suc n))
        × (balance p (transfer p from args f).1 to ≡ pos (abs (balance p f to -ℤ pos (suc n))))
  negative_transfer_takes laws from to args n f {v} r apart h =
      let (_, after) = transfer_balances laws from to args (negsuc n) f r h in
      (
        rw (after from, =ᵇ-symm to from, apart, =ᵇ-self from)
            (unsigned_sub_negsuc n (balance p f from) (balance_nonneg p f from)),
        rw (after to, =ᵇ-self to) (ap (λ x. pos (abs x)) (add_negsuc n (balance p f to))),
      )
