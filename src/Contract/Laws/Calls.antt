-- ===== src/Contract/Laws/Calls.antt =====
-- What a call of the contract, and a write of an actor, leave of the store and of the memory.
use toychain.Prelude.{
  ◌≡◌, refl, ap, ◌∙◌, true, false, List, [], ◌∷◌, ◌=ᵇ◌, Bool-cases, inl, inr, arith, length, ◌==◌,
  Bytes,
}
use toychain.Prelude.Int.{ℤ}
use toychain.Outcome.{Outcome, ok, err, panic}
use toychain.Exec.{Exec, ◌>>=◌, lift, continue}
use toychain.Types.Value.{Value}
use toychain.Types.Address.{Address}
use toychain.Platform.{Platform, Actor}
use toychain.Contract.World.{World, Frame, set_actor}
use toychain.Contract.Cast.{address_cast, number_cast}
use toychain.Contract.Token.{transfer, move, ensure_actor, get_balance, read_balance, write_balance}
use toychain.Contract.Call.{
  call, transfer_name, get_balance_name, must_typed_call_closure, get_balance_func,
  get_balance_body, cast_args, ParamType,
}
use toychain.Contract.Laws.Transfer.{ensure_actor-store}

module _ (p : Platform) where
  pub set_actor-store :
      (a : Address) (act : Actor) (w : World p) → (set_actor p a act w).1.store ≡ w.store
  unfolding set_actor
  set_actor-store a act w = ground arith

  abbrev Kept : Frame p → Outcome Value × Frame p → Type 0
  Kept f r = r.1.world.store ≡ f.world.store

  move-store : (from to : Address) (amount : ℤ) (f : Frame p) → Kept f (move p from to amount f)
  unfolding move read_balance write_balance
  move-store from to amount f = ground arith

  Kept-lift :
      {A : Type 0} (r : Outcome A) (k : A → Exec (Frame p) Value) (f : Frame p)
      → ((a : A) → Kept f (k a f))
      → Kept f ((lift r >>= k) f)
  Kept-lift (ok a) k f h = h a
  Kept-lift (err e) k f h = refl
  Kept-lift panic k f h = refl

  moving-store :
      (from to : Address) (amount : ℤ) (f : Frame p)
      → Kept f ((ensure_actor p to >>= λ _. move p from to amount) f)
  moving-store from to amount f = go (ensure_actor p to f).0 refl
    where
      go :
          (r : Outcome (Unit {0}))
          → (ensure_actor p to f).0 ≡ r
          → Kept f ((ensure_actor p to >>= λ _. move p from to amount) f)
      go (ok u) e =
          rw (e, continue)
            (move-store from to amount (ensure_actor p to f).1 ∙ ensure_actor-store p to f)
      go (err x) e = rw (e, continue) (ensure_actor-store p to f)
      go panic e = rw (e, continue) (ensure_actor-store p to f)

  transfer-store :
      (from : Address) (args : List Value) (f : Frame p) → Kept f (transfer p from args f)
  unfolding transfer
  transfer-store from (x ∷ y ∷ []) f =
      Kept-lift (address_cast x) _ f
        λ to. Kept-lift (number_cast y) _ f λ amount. moving-store from to amount f
  transfer-store from [] f = refl
  transfer-store from (x ∷ []) f = refl
  transfer-store from (x ∷ y ∷ z ∷ l) f = refl

  get_balance_body-frame : (vs : List Value) (f : Frame p) → (get_balance_body p vs f).1 ≡ f
  unfolding get_balance
  get_balance_body-frame (Value.address a ∷ []) f = ground arith
  get_balance_body-frame (Value.address a ∷ x ∷ l) f = refl
  get_balance_body-frame [] f = refl
  get_balance_body-frame (v ∷ l) f = refl

  lift-frame :
      {A : Type 0} (r : Outcome A) (k : A → Exec (Frame p) Value) (f : Frame p)
      → ((a : A) → (k a f).1 ≡ f)
      → ((lift r >>= k) f).1 ≡ f
  lift-frame (ok a) k f h = h a
  lift-frame (err e) k f h = refl
  lift-frame panic k f h = refl

  get_balance-frame :
      (args : List Value) (f : Frame p)
      → (must_typed_call_closure p (get_balance_func p) args f).1 ≡ f
  unfolding must_typed_call_closure
  get_balance-frame args f = elim (Bool-cases (1 == length args)) [
    | inl fits ↦ rw fits (
        lift-frame (cast_args (ParamType.addr_type ∷ []) args) (get_balance_body p) f
          (λ vs. get_balance_body-frame vs f))
    | inr other ↦ rw other
  ]

  -- A call of any other method than `transfer` changes nothing.
  pub call-frame :
      (from : Address) (method : Bytes) (args : List Value) (f : Frame p)
      → (method =ᵇ transfer_name) ≡ false
      → (call p from method args f).1 ≡ f
  unfolding call
  call-frame from method args f other = elim (Bool-cases (method =ᵇ get_balance_name)) [
    | inl is_balance ↦ rw (other, is_balance) (get_balance-frame args f)
    | inr unknown ↦ rw (other, unknown)
  ]

  pub call-transfer :
      (from : Address) (method : Bytes) (args : List Value) (f : Frame p)
      → (method =ᵇ transfer_name) ≡ true
      → call p from method args f ≡ transfer p from args f
  unfolding call
  call-transfer from method args f same = rw same

  pub call-store :
      (from : Address) (method : Bytes) (args : List Value) (f : Frame p)
      → (call p from method args f).1.world.store ≡ f.world.store
  call-store from method args f = elim (Bool-cases (method =ᵇ transfer_name)) [
    | inl same ↦
        ap (λ r. r.1.world.store) (call-transfer from method args f same)
        ∙ transfer-store from args f
    | inr other ↦ ap (λ (g : Frame p). g.world.store) (call-frame from method args f other)
  ]
