-- ===== src/Contract/Laws/Actors.antt =====
-- The actors of a world: what `SetActor`, a flush and a call of the contract leave of them.
use toychain.Prelude.{
  ◌≡◌, refl, ap, false, List, [], ◌∷◌, ◌=ᵇ◌, =ᵇ→eq, Bool-cases, inl, inr, arith, length, ◌==◌,
  Bytes, if◌then◌else◌,
}
use toychain.Prelude.Int.{ℤ}
use toychain.Outcome.{Outcome, ok, err, panic, not_found, revert}
use toychain.Exec.{Exec, ◌>>=◌, >>=-eq-ok, lift, continue}
use toychain.Types.Value.{Value}
use toychain.Types.Address.{Address}
use toychain.Platform.{Platform, Actor}
use toychain.Platform.Laws.{IsHamt, IsActorCodec, Answered, Grows}
use toychain.Contract.World.{World, Frame, get_actor, set_actor, set_root, read_actor}
use toychain.Contract.Cast.{address_cast, number_cast}
use toychain.Contract.Token.{
  transfer, move, on_actor, ensure_actor, read_balance, write_balance, get_balance, blank_actor,
}
use toychain.Contract.Call.{
  call, transfer_name, get_balance_name, must_typed_call_closure, get_balance_func,
  get_balance_body, cast_args, ParamType,
}
use toychain.Contract.Execute.{err_is_fatal}

-- A result after which `ActorExec` goes on: a value, or an error that reverts.
abbrev pub Survives {ℓ} : {A : Type ℓ} → Outcome A → Type 0
Survives (ok v) = Unit
Survives (err e) = err_is_fatal e ≡ false
Survives panic = ⊥

module _ (p : Platform) where
  -- The actor that `GetActor` reads.
  unfoldable pub actor_at : World p → Address → Outcome Actor
  actor_at w a = (get_actor p a w).0

  -- Every actor of the first world is in the second, unchanged.
  abbrev pub KeepsActors : World p → World p → Type 0
  KeepsActors w w' = (a : Address) (act : Actor) → actor_at w a ≡ ok act → actor_at w' a ≡ ok act

  pub read_actor-Answered : (r : Outcome Bytes) (act : Actor) → read_actor p r ≡ ok act → Answered r
  read_actor-Answered (ok b) act h = tt
  read_actor-Answered (err not_found) act h = tt
  read_actor-Answered (err e) act h = absurd (cc)
  read_actor-Answered panic act h = absurd (cc)

  pub KeepsActors-Grows :
      (w w' : World p) → w'.root ≡ w.root → Grows p w.store w'.store → KeepsActors w w'
  unfolding actor_at get_actor
  KeepsActors-Grows w w' same grows a act h =
      let found = grows.finds w.root a (read_actor-Answered (p.find w.store w.root a) act h) in
      rw (same, found) h

  pub KeepsActors-trans : (u v w : World p) → KeepsActors u v → KeepsActors v w → KeepsActors u w
  KeepsActors-trans u v w h k a act e = k a act (h a act e)

module _ (p : Platform) (laws : IsHamt p) (codec : IsActorCodec p) where
  -- After `SetActor` the address has the actor, and every other address what it had.
  pub actor_at-set_actor :
      (a b : Address) (act : Actor) (w : World p)
      → (set_actor p a act w).0 ≡ ok tt
      → actor_at p (set_actor p a act w).1 b ≡ (if a =ᵇ b then ok act else actor_at p w b)
  unfolding actor_at get_actor set_actor
  actor_at-set_actor a b act w h =
      let (d, made, rest) = >>=-eq-ok (lift (p.marshal_actor act)) (set_root p a) w h in
      let stored : (p.set w.store a d w.root).0 ≡ ok tt = cc h in
      rw (rest, laws.find_set w.store a d w.root stored b)
        (elim (Bool-cases (a =ᵇ b)) [
          | inl same ↦ rw (same, codec.round_trip act d made)
          | inr other ↦ rw other
        ])

  -- An actor that was not there is made without a change to the others.
  pub set_actor-KeepsActors :
      (a : Address) (act : Actor) (w : World p)
      → actor_at p w a ≡ err not_found
      → (set_actor p a act w).0 ≡ ok tt
      → KeepsActors p w (set_actor p a act w).1
  set_actor-KeepsActors a act w missing h b old e =
      let after = actor_at-set_actor a b act w h in
      elim (Bool-cases (a =ᵇ b)) [
        | inl same ↦ absurd (cc (missing, e, ap (actor_at p w) (=ᵇ→eq a b same)))
        | inr other ↦ rw (after, other) e
      ]

  abbrev Safe : Frame p → Outcome Value × Frame p → Type 0
  Safe f r = Survives r.0 → KeepsActors p f.world r.1.world

  Safe-lift :
      {A : Type 0} (r : Outcome A) (k : A → Exec (Frame p) Value) (f : Frame p)
      → ((a : A) → Safe f (k a f))
      → Safe f ((lift r >>= k) f)
  Safe-lift (ok a) k f h = h a
  Safe-lift (err e) k f h = λ _ a act found. found
  Safe-lift panic k f h = λ _ a act found. found

  pub move-world :
      (from to : Address) (amount : ℤ) (f : Frame p) → (move p from to amount f).1.world ≡ f.world
  unfolding move read_balance write_balance
  move-world from to amount f = ground arith

  set-Survives :
      (st : p.Store) (k v : Bytes) (n : p.Node)
      → Survives (p.set st k v n).0
      → (p.set st k v n).0 ≡ ok tt
  unfolding err_is_fatal
  set-Survives st k v n h = go (p.set st k v n).0 refl h
    where
      go : (r : Outcome (Unit {0})) → (p.set st k v n).0 ≡ r → Survives r → r ≡ ok tt
      go (ok u) e s = refl
      go (err (revert x)) e s = absurd (laws.set_no_revert st k v n x e)
      go (err not_found) e s = cc
      go (err x) e s = cc
      go panic e s = absurd s

  set_actor-Safe :
      (a : Address) (act : Actor) (w : World p)
      → actor_at p w a ≡ err not_found
      → Survives (set_actor p a act w).0
      → KeepsActors p w (set_actor p a act w).1
  unfolding set_actor
  set_actor-Safe a act w missing s = go (p.marshal_actor act) refl s
    where
      go :
          (r : Outcome Bytes)
          → p.marshal_actor act ≡ r
          → Survives ((lift r >>= set_root p a) w).0
          → KeepsActors p w (set_actor p a act w).1
      go (ok d) e s =
          set_actor-KeepsActors a act w missing
            (rw (e, continue) (set-Survives w.store a d w.root s))
      go (err x) e s = λ b old found. rw (e, continue) found
      go panic e s = absurd s

  Safe-then :
      (m : Exec (Frame p) (Unit {0})) (k : Exec (Frame p) Value) (f : Frame p)
      → (Survives (m f).0 → KeepsActors p f.world (m f).1.world)
      → ((g : Frame p) → (k g).1.world ≡ g.world)
      → Safe f ((m >>= λ _. k) f)
  Safe-then m k f h same = go (m f).0 refl
    where
      go : (r : Outcome (Unit {0})) → (m f).0 ≡ r → Safe f ((m >>= λ _. k) f)
      go (ok u) e s b act found = rw (e, continue, same (m f).1) (h (rw e tt) b act found)
      go (err x) e s b act found = rw (e, continue) (h (rw e (rw (e, continue) at s)) b act found)
      go panic e s b act found = absurd (rw (e, continue) at s)

  on_actor-Safe :
      (a : Address) (f : Frame p) (r : Outcome Actor)
      → actor_at p f.world a ≡ r
      → Survives (on_actor p a r f).0
      → KeepsActors p f.world (on_actor p a r f).1.world
  on_actor-Safe a f (ok act) e s = λ b old found. found
  on_actor-Safe a f (err not_found) e s = set_actor-Safe a blank_actor f.world e s
  on_actor-Safe a f (err x) e s = λ b old found. found
  on_actor-Safe a f panic e s = λ b old found. found

  ensure_actor-Safe :
      (a : Address) (f : Frame p)
      → Survives (ensure_actor p a f).0
      → KeepsActors p f.world (ensure_actor p a f).1.world
  unfolding ensure_actor actor_at
  ensure_actor-Safe a f = on_actor-Safe a f (actor_at p f.world a) refl

  transfer-Safe :
      (from : Address) (args : List Value) (f : Frame p) → Safe f (transfer p from args f)
  unfolding transfer
  transfer-Safe from (x ∷ y ∷ []) f = Safe-lift (address_cast x) _ f λ to.
      Safe-lift (number_cast y) _ f λ amount.
        Safe-then (ensure_actor p to) (move p from to amount) f (ensure_actor-Safe to f)
          (move-world from to amount)
  transfer-Safe from [] f = λ _ a act found. found
  transfer-Safe from (x ∷ []) f = λ _ a act found. found
  transfer-Safe from (x ∷ y ∷ z ∷ l) f = λ _ a act found. found

  get_balance_body-world :
      (vs : List Value) (f : Frame p) → (get_balance_body p vs f).1.world ≡ f.world
  unfolding get_balance
  get_balance_body-world (Value.address a ∷ []) f = ground arith
  get_balance_body-world (Value.address a ∷ x ∷ l) f = refl
  get_balance_body-world [] f = refl
  get_balance_body-world (v ∷ l) f = refl

  get_balance-Safe :
      (args : List Value) (f : Frame p)
      → Safe f (must_typed_call_closure p (get_balance_func p) args f)
  unfolding must_typed_call_closure
  get_balance-Safe args f = elim (Bool-cases (1 == length args)) [
    | inl fits ↦ rw fits (
        Safe-lift (cast_args (ParamType.addr_type ∷ []) args) (get_balance_body p) f
          λ vs _ a act found. rw (get_balance_body-world vs f) found)
    | inr other ↦ rw other (λ _ a act found. found)
  ]

  -- A call of the contract that succeeds, or fails by reverting, keeps every actor that was there.
  pub call-KeepsActors :
      (from : Address) (method : Bytes) (args : List Value) (f : Frame p)
      → Survives (call p from method args f).0
      → KeepsActors p f.world (call p from method args f).1.world
  unfolding call
  call-KeepsActors from method args f = elim (Bool-cases (method =ᵇ transfer_name)) [
    | inl is_transfer ↦ rw is_transfer (transfer-Safe from args f)
    | inr other ↦ rw other (elim (Bool-cases (method =ᵇ get_balance_name)) [
      | inl is_balance ↦ rw is_balance (get_balance-Safe args f)
      | inr unknown ↦ rw unknown (λ _ a act found. found)
    ])
  ]
