-- ===== src/Contract/Laws/Branches.antt =====
-- When `transfer` goes through and when it does not: its result on each branch of its tests.
use toychain.Prelude.{
  ◌≡◌, refl, ◌≢◌, true, false, List, [], ◌∷◌, arith, length, ℕ, ◌⊎◌, inl, inr, ap, Bool-cases, ◌=ᵇ◌,
  Bytes,
}
use toychain.Prelude.Int.{ℤ, pos, ◌≤ℤ◌, ◌+ℤ◌, ◌-ℤ◌, ltb_ℤ}
use toychain.Outcome.{ok, err, Message, message, revert}
use toychain.Exec.{◌>>=◌}
use toychain.BigInt.{bytes, set_bytes}
use toychain.Types.Value.{Value, nil}
use toychain.Types.Address.{Address}
use toychain.Platform.{Platform, Actor}
use toychain.Platform.Laws.{Answered, IsHamt}
use toychain.Contract.World.{Frame, get_actor}
use toychain.Contract.Token.{transfer, move, ensure_actor, read_balance, write_balance}
use toychain.Contract.Laws.Move.{balance, paid, credited}
use toychain.Contract.Laws.Transfer.{Reads, transfer-eq-move, transfer_moves_funds}

module _ (p : Platform) (from to : Address) (args : List Value) (amount : ℤ) (f : Frame p) where
  -- The receiver's actor is there, and the sender's balance can be read.
  pub record IsKnown : Type 0 where
    pub actor : Actor
    pub known : (get_actor p to f.world).0 ≡ ok actor
    pub reads_from : Answered (p.find f.world.store f.memory from)

  -- The receiver's balance can be read, and the store takes every write.
  pub record IsWritable : Type 0 where
    pub reads_to : Answered (p.find f.world.store f.memory to)
    pub takes : (k v : Bytes) (m : p.Node) → (p.set f.world.store k v m).0 ≡ ok tt

  writes_from : IsWritable → (write_balance p from (balance p f from -ℤ amount) f).0 ≡ ok tt
  unfolding write_balance
  writes_from w = w.takes from (bytes (balance p f from -ℤ amount)) f.memory

  writes_to :
      IsWritable
      → (write_balance p to (balance p f to +ℤ amount) (paid p from to amount f)).0 ≡ ok tt
  unfolding write_balance
  writes_to w = w.takes to (bytes (balance p f to +ℤ amount)) (paid p from to amount f).memory

  ensure_actor-known : IsKnown → ensure_actor p to f ≡ (ok tt, f)
  unfolding ensure_actor
  ensure_actor-known k = ground (arith, k.known)

  read_balance-balance :
      (a : Address) (g : Frame p)
      → Answered (p.find g.world.store g.memory a)
      → read_balance p a g ≡ (ok (balance p g a), g)
  unfolding read_balance balance set_bytes
  read_balance-balance a g h = ground arith

  -- Where the arguments are an address with an actor and an amount, and the sender's balance can
  -- be read and is less than the amount, the transfer is the error that reverts, and nothing was
  -- written.
  transfer_short :
      Reads args to amount
      → IsKnown
      → ltb_ℤ (balance p f from) amount ≡ true
      → transfer p from args f ≡ (err (revert (message Message.not_enough_funds)), f)
  transfer_short r k short =
      rw (transfer-eq-move p from to args amount f r, ◌>>=◌, ensure_actor-known k)
        (unfold move in ground (arith, read_balance-balance from f k.reads_from))

  -- Where the arguments are an address with an actor and an amount, both balances can be read, the
  -- sender's is not less than the amount, and the store takes both writes, the transfer returns no
  -- value and no error, in the state with both writes.
  transfer_succeeds :
      Reads args to amount
      → IsKnown
      → IsWritable
      → ltb_ℤ (balance p f from) amount ≡ false
      → transfer p from args f ≡ (ok nil, credited p from to amount f)
  transfer_succeeds r k w enough =
      rw (transfer-eq-move p from to args amount f r, ◌>>=◌, ensure_actor-known k)
        (unfold move in
          ground (
            arith,
            read_balance-balance from f k.reads_from,
            read_balance-balance to f w.reads_to,
            writes_from w,
            writes_to w,
          ))

module _ (p : Platform) (from to : Address) (args : List Value) (n : ℕ) (f : Frame p) where
  -- By the laws of the HAMT, where the arguments are another address, which has an actor, and an
  -- amount that is not negative, both balances can be read and the store takes every write, the
  -- sender's balance alone decides: if it is not less than the amount, the transfer returns no value
  -- and no error, exactly the amount went from the sender to the receiver, and no other balance
  -- changed; if it is less, the transfer is the error that reverts, and nothing was written.
  pub transfer_by_funds :
      IsHamt p
      → Reads args to (pos n)
      → (from =ᵇ to) ≡ false
      → IsKnown p from to args (pos n) f
      → IsWritable p from to args (pos n) f
      → ((pos n ≤ℤ balance p f from)
          × ((transfer p from args f).0 ≡ ok nil)
          × (balance p (transfer p from args f).1 from ≡ balance p f from -ℤ pos n)
          × (balance p (transfer p from args f).1 to ≡ balance p f to +ℤ pos n)
          × ((a : Address)
              → (from =ᵇ a) ≡ false
              → (to =ᵇ a) ≡ false
              → balance p (transfer p from args f).1 a ≡ balance p f a))
        ⊎ ((ltb_ℤ (balance p f from) (pos n) ≡ true)
            × (transfer p from args f ≡ (err (revert (message Message.not_enough_funds)), f)))
  transfer_by_funds laws r apart k w = elim (Bool-cases (ltb_ℤ (balance p f from) (pos n))) [
    | inl short ↦ inr (short, transfer_short p from to args (pos n) f r k short)
    | inr enough ↦
        let done = ap (λ x. x.0) (transfer_succeeds p from to args (pos n) f r k w enough) in
        let (covered, debit, credit, others) =
          transfer_moves_funds p laws from to args n f r apart done in
        inl (covered, done, debit, credit, others)
  ]

-- Any other number of arguments than two is the error that reverts, and nothing was written.
pub transfer_arity :
    (p : Platform) (from : Address) (args : List Value) (f : Frame p)
    → length args ≢ 2
    → transfer p from args f ≡ (err (revert (message Message.transfer_arity)), f)
unfolding transfer
transfer_arity p from [] f h = refl
transfer_arity p from (x ∷ []) f h = refl
transfer_arity p from (x ∷ y ∷ []) f h = absurd (h refl)
transfer_arity p from (x ∷ y ∷ z ∷ l) f h = refl
