-- ===== src/Exec.antt =====
-- Go methods that change an object and may fail: the state comes back beside an error too, since
-- what was written stays written.
use toychain.Prelude.{◌≡◌, refl, ◌∙◌, arith}
use toychain.Outcome.{Outcome, ok, err, panic, Error}

abbrev pub Exec : Type 0 → Type 0 → Type 0
Exec S A = S → Outcome A × S

module _ {S A : Type 0} where
  abbrev pub pure : A → Exec S A
  pure a s = (ok a, s)

  abbrev pub fail : Error → Exec S A
  fail e s = (err e, s)

  abbrev pub lift : Outcome A → Exec S A
  lift r s = (r, s)

module _ {S A B : Type 0} where
  abbrev pub continue : Outcome A → (A → Exec S B) → Exec S B
  continue (ok a) f s = f a s
  continue (err e) f s = (err e, s)
  continue panic f s = (panic, s)

  infixl 5 ◌>>=◌ ◌>>◌
  abbrev pub ◌>>=◌ : Exec S A → (A → Exec S B) → Exec S B
  ◌>>=◌ m f s = let (r, s') = m s in continue r f s'

  abbrev pub ◌>>◌ : Exec S A → Exec S B → Exec S B
  m >> k = m >>= λ _. k

  -- A block that returns a value ran its first call to a value, and went on from there.
  pub >>=-eq-ok :
      (m : Exec S A) (f : A → Exec S B) (s : S) {b : B}
      → ((m >>= f) s).0 ≡ ok b
      → (a : A) × ((m s).0 ≡ ok a) × ((m >>= f) s ≡ f a (m s).1)
  >>=-eq-ok m f s {b} h = go (m s).0 refl
    where
      go : (r : Outcome A) → (m s).0 ≡ r → (a : A) × ((m s).0 ≡ ok a) × ((m >>= f) s ≡ f a (m s).1)
      go (ok a) e = (a, e, rw (e, continue))
      go (err x) e = ground arith
      go panic e = ground arith

  -- A part of the state that both calls keep is kept by the block.
  pub >>=-keeps :
      {R : Type 0} (view : S → R) (m : Exec S A) (f : A → Exec S B)
      → ((s : S) → view (m s).1 ≡ view s)
      → ((a : A) (s : S) → view (f a s).1 ≡ view s)
      → (s : S) → view ((m >>= f) s).1 ≡ view s
  >>=-keeps view m f h k s = go (m s).0 refl
    where
      go : (r : Outcome A) → (m s).0 ≡ r → view ((m >>= f) s).1 ≡ view s
      go (ok a) e = rw (e, continue) (k a (m s).1 ∙ h s)
      go (err x) e = rw (e, continue) (h s)
      go panic e = rw (e, continue) (h s)

  -- A relation between the state before and after that both calls respect is respected by the block.
  pub >>=-relates :
      (R : S → S → Type 0) (m : Exec S A) (f : A → Exec S B)
      → ((a b c : S) → R a b → R b c → R a c)
      → ((s : S) → R s (m s).1)
      → ((a : A) (s : S) → R s (f a s).1)
      → (s : S) → R s ((m >>= f) s).1
  >>=-relates R m f trans h k s = go (m s).0 refl
    where
      go : (r : Outcome A) → (m s).0 ≡ r → R s ((m >>= f) s).1
      go (ok a) e = rw (e, continue) (trans s (m s).1 (f a (m s).1).1 (h s) (k a (m s).1))
      go (err x) e = rw (e, continue) (h s)
      go panic e = rw (e, continue) (h s)
