-- ===== src/Contract/Laws/Reading.antt =====
-- What can still be read of a ledger after a call.
use toychain.Prelude.{
  ℕ, ◌≡◌, ap, sym, ◌∙◌, true, false, List, ◌=ᵇ◌, =ᵇ-self, Bool-cases, inl, inr, ◌⊎◌, Bytes,
}
use mathlib.Core.Path.{subst}
use toychain.Prelude.Int.{ℤ, pos, ◌+ℤ◌, ◌-ℤ◌}
use toychain.Outcome.{ok}
use toychain.Exec.{>>=-eq-ok}
use toychain.BigInt.{bytes}
use toychain.Types.Value.{Value}
use toychain.Types.Address.{Address}
use toychain.Types.Transaction.{Transaction}
use toychain.Platform.{Platform}
use toychain.Platform.Laws.{Answered, IsHamt}
use toychain.Contract.World.{Frame}
use toychain.Contract.Call.{call, transfer_name}
use toychain.Contract.Token.{transfer, move, ensure_actor, write_balance}
use toychain.Contract.Laws.Move.{balance, move_steps, paid}
use toychain.Contract.Laws.Transfer.{
  Reads, transfer-eq-move, ensure_actor-memory, ensure_actor-store,
}
use toychain.Contract.Laws.Supply.{contains}
use toychain.Contract.Laws.Calls.{call-frame, call-transfer}

-- A call of `transfer` to another listed address of an amount that is not negative, or of another
-- method, to the contract's address.
pub record IsOrdinary (contract : Address) (accounts : List Address) (tx : Transaction)
    : Type 0 where
  pub to_contract : tx.to ≡ contract
  pub call_is :
      ((tx.method =ᵇ transfer_name) ≡ false)
      ⊎ ((to : Address) × (n : ℕ) × Reads tx.params to (pos n)
          × ((tx.sender =ᵇ to) ≡ false)
          × (contains tx.sender accounts ≡ true)
          × (contains to accounts ≡ true))

module _ (p : Platform) where
  abbrev pub IsAnswered : Frame p → Address → Type 0
  IsAnswered f a = Answered (p.find f.world.store f.memory a)

  module _ (laws : IsHamt p) where
    write_balance-Answered :
        (a b : Address) (n : ℤ) (g : Frame p)
        → (write_balance p a n g).0 ≡ ok tt
        → IsAnswered g b
        → IsAnswered (write_balance p a n g).1 b
    unfolding write_balance
    write_balance-Answered a b n g h there =
        rw (laws.find_set g.world.store a (bytes n) g.memory h b)
          (elim (Bool-cases (a =ᵇ b)) [ inl same ↦ rw same tt | inr other ↦ rw other there ])

    transfer-Answered :
        (from to : Address) (args : List Value) (amount : ℤ) (f : Frame p) {v : Value} (a : Address)
        → Reads args to amount
        → (transfer p from args f).0 ≡ ok v
        → IsAnswered f a
        → IsAnswered (transfer p from args f).1 a
    transfer-Answered from to args amount f {v} a r h there =
        let same = transfer-eq-move p from to args amount f r in
        let (u, made, rest) =
          >>=-eq-ok (ensure_actor p to) (λ _. move p from to amount) f {b = v} (rw (← same) h) in
        let g = (ensure_actor p to f).1 in
        let (enough, wrote, credit, end, _) =
          move_steps p from to amount g {v = v} (cc (h, same, rest)) in
        let kept : IsAnswered g a =
          rw (ensure_actor-memory p to f, ensure_actor-store p to f) there in
        let first = write_balance-Answered from a (balance p g from -ℤ amount) g wrote kept in
        rw (same, rest, end)
          (write_balance-Answered to a (balance p g to +ℤ amount) (paid p from to amount g) credit
            first)

    -- After a transfer, the receiver has an entry.
    pub transfer-found :
        (from to : Address) (args : List Value) (amount : ℤ) (f : Frame p) {v : Value}
        → Reads args to amount
        → (transfer p from args f).0 ≡ ok v
        → (b : Bytes) × (p.find
              (transfer p from args f).1.world.store
              (transfer p from args f).1.memory
              to
            ≡ ok b)
    unfolding write_balance
    transfer-found from to args amount f {v} r h =
        let same = transfer-eq-move p from to args amount f r in
        let (u, made, rest) =
          >>=-eq-ok (ensure_actor p to) (λ _. move p from to amount) f {b = v} (rw (← same) h) in
        let g = (ensure_actor p to f).1 in
        let (enough, wrote, credit, end, _) =
          move_steps p from to amount g {v = v} (cc (h, same, rest)) in
        let first = paid p from to amount g in
        let n = balance p g to +ℤ amount in
        (
          bytes n,
          rw (same, rest, end)
              (laws.find_set first.world.store to (bytes n) first.memory credit to
                ∙ rw (=ᵇ-self to)),
        )

    -- What could be read of the ledger can be read after a call that returned a value.
    pub call-Answered :
        (contract : Address) (accounts : List Address) (tx : Transaction) (f g : Frame p)
        (v : Value) (a : Address)
        → IsOrdinary contract accounts tx
        → call p tx.sender tx.method tx.params f ≡ (ok v, g)
        → IsAnswered f a
        → IsAnswered g a
    call-Answered contract accounts tx f g v a ordinary h there =
        elim (Bool-cases (tx.method =ᵇ transfer_name)) [
          | inr other ↦
              let same =
                sym (call-frame p tx.sender tx.method tx.params f other) ∙ ap (λ r. r.1) h in
              subst (λ k. IsAnswered k a) same there
          | inl is_transfer ↦ elim ordinary.call_is [
            | inl other ↦ cc
            | inr (to, n, reads, _, _, _) ↦
                let ran = sym (call-transfer p tx.sender tx.method tx.params f is_transfer) ∙ h in
                subst (λ r. IsAnswered r.1 a) ran
                  (transfer-Answered tx.sender to tx.params (pos n) f {v = v} a reads
                    (ap (λ r. r.0) ran) there)
          ]
        ]
