-- ===== src/Chain/Laws/Notify.antt =====
-- The blocks that `BlockNotifications` hands on: their order, and what may be lost.
use mathlib.Core.List.{Sublist, append-nil, nil-sublist}
use mathlib.Core.List.Sublist
use mathlib.Core.Option.{some-injective}
use mathlib.Core.Path.{subst}
use toychain.Prelude.{
  ◌≡◌, ◌≤◌, refl, sym, ap, true, false, Bool, Option, none, some, if◌then◌else◌, List, [], ◌∷◌,
  ◌++◌, length, length-append, append_assoc, arith, ltb,
}
use toychain.Types.Block.{Block}
use toychain.Chain.Notify.{
  Forwarder, ForwardEvent, received, sent_on, dropped, returned, cancelled, taken, out_size,
  receive, send_on, drop, return_if, take_from, forward, brought, handed, Run, first_of, begins,
  goes_on,
}

abbrev pending : Option Block → List Block
pending none = []
pending (some b) = b ∷ []

-- What the caller has read, then what waits for it, then what is to be sent on.
abbrev pub through : List Block → Forwarder → List Block
through cs f = cs ++ (f.out ++ pending f.held)

pub record IsInOrder (rs cs : List Block) (f : Forwarder) : Type 0 where
  -- no more waits than there are places
  pub fits : length f.out ≤ out_size
  -- nothing comes twice, or before what came earlier
  pub order : Sublist (through cs f) rs
  -- nothing is lost until the context is done
  pub complete : f.done ≡ false → through cs f ≡ rs

unless-some :
    {A : Type 0} (c : Bool) (o : Option A) {a : A} → (if c then none else o) ≡ some a → o ≡ some a
unless-some true o h = cc h
unless-some false o h = h

only_if-some :
    {A : Type 0} (c : Bool) (o : Option A) {a : A}
    → (if c then o else none) ≡ some a
    → (c ≡ true) × (o ≡ some a)
only_if-some true o h = (refl, h)
only_if-some false o h = cc h

-- A step that brings in `l` at the end, and loses nothing.
loses_nothing :
    {rs cs : List Block} {f g : Forwarder} (l : List Block) {rs' cs' : List Block}
    → length g.out ≤ out_size
    → (g.done ≡ false → f.done ≡ false)
    → through cs' g ≡ through cs f ++ l
    → rs' ≡ rs ++ l
    → IsInOrder rs cs f
    → IsInOrder rs' cs' g
loses_nothing l fits undone now came h = record {
  fits = fits;
  order = rw (now, came) (Sublist.append h.order (Sublist.refl l));
  complete = λ e. rw (now, came) (ap (λ x. x ++ l) (h.complete (undone e)));
}

module _ (rs cs : List Block) (f g : Forwarder) (h : IsInOrder rs cs f) where
  receive-IsInOrder :
      (b : Block) (o : Option Block)
      → f.held ≡ o
      → receive b o f ≡ some g
      → IsInOrder (rs ++ b ∷ []) (cs ++ []) g
  receive-IsInOrder b none held e =
      subst (IsInOrder (rs ++ b ∷ []) (cs ++ [])) (some-injective _ _ e) (
        loses_nothing (b ∷ []) h.fits (λ d. d)
          (rw (append-nil cs, held, append-nil f.out) (sym (append_assoc cs f.out (b ∷ [])))) refl
          h)
  receive-IsInOrder b (some c) held e = cc e

  send_on-IsInOrder :
      (o : Option Block) → f.held ≡ o → send_on o f ≡ some g → IsInOrder (rs ++ []) (cs ++ []) g
  send_on-IsInOrder none held e = cc e
  send_on-IsInOrder (some b) held e =
      let (free, same) =
        only_if-some (ltb (length f.out) out_size)
          (some (record f { held = none; out = f.out ++ b ∷ [] })) e in
      subst (IsInOrder (rs ++ []) (cs ++ [])) (some-injective _ _ same) (
        loses_nothing {f = f} [] (ground (arith, free, length-append f.out (b ∷ []))) (λ d. d)
          (rw (
            append-nil cs,
            held,
            append-nil (f.out ++ b ∷ []),
            append-nil (cs ++ (f.out ++ b ∷ [])),
          ))
          refl h)

  drop-IsInOrder :
      (o : Option Block) → f.held ≡ o → drop o f ≡ some g → IsInOrder (rs ++ []) (cs ++ []) g
  drop-IsInOrder none held e = cc e
  drop-IsInOrder (some b) held e =
      let (done, same) = only_if-some f.done (some (record f { held = none })) e in
      let earlier : Sublist (f.out ++ []) (f.out ++ pending f.held) =
        Sublist.append (Sublist.refl f.out) (nil-sublist (pending f.held)) in
      subst (IsInOrder (rs ++ []) (cs ++ [])) (some-injective _ _ same) (record {
        fits = h.fits;
        order =
            rw (append-nil cs, append-nil rs)
              (Sublist.trans (Sublist.append (Sublist.refl cs) earlier) h.order);
        complete = λ undone. absurd (cc (done, undone));
      })

  return-IsInOrder :
      (o : Option Block) → f.held ≡ o → return_if o f ≡ some g → IsInOrder (rs ++ []) (cs ++ []) g
  return-IsInOrder (some b) held e = cc e
  return-IsInOrder none held e =
      let (_, same) = only_if-some f.done (some (record f { closed = true })) e in
      subst (IsInOrder (rs ++ []) (cs ++ [])) (some-injective _ _ same) (
        loses_nothing {f = f} [] h.fits (λ d. d) (rw (append-nil cs, append-nil (through cs f)))
          refl h)

  take-IsInOrder :
      (l : List Block)
      → f.out ≡ l
      → take_from l f ≡ some g
      → IsInOrder (rs ++ []) (cs ++ first_of l) g
  take-IsInOrder [] out e = cc e
  take-IsInOrder (b ∷ l) out e =
      subst (IsInOrder (rs ++ []) (cs ++ b ∷ [])) (some-injective _ _ e) (
        loses_nothing [] (omega (arith, h.fits, ap (λ x. length x) out)) (λ d. d)
          (rw (append-nil (through cs f), out) (append_assoc cs (b ∷ []) (l ++ pending f.held)))
          refl h)

forward-IsInOrder :
    (rs cs : List Block) (f g : Forwarder) (e : ForwardEvent)
    → forward e f ≡ some g
    → IsInOrder rs cs f
    → IsInOrder (rs ++ brought e) (cs ++ handed e f) g
unfolding forward
forward-IsInOrder rs cs f g (received b) e h =
    receive-IsInOrder rs cs f g h b f.held refl (unless-some f.closed (receive b f.held f) e)
forward-IsInOrder rs cs f g sent_on e h =
    send_on-IsInOrder rs cs f g h f.held refl (unless-some f.closed (send_on f.held f) e)
forward-IsInOrder rs cs f g dropped e h =
    drop-IsInOrder rs cs f g h f.held refl (unless-some f.closed (drop f.held f) e)
forward-IsInOrder rs cs f g returned e h =
    return-IsInOrder rs cs f g h f.held refl (unless-some f.closed (return_if f.held f) e)
forward-IsInOrder rs cs f g cancelled e h =
    subst (IsInOrder (rs ++ []) (cs ++ [])) (some-injective _ _ e) (
      loses_nothing {f = f} [] h.fits (λ d. absurd (cc d))
        (rw (append-nil cs, append-nil (through cs f))) refl h)
forward-IsInOrder rs cs f g taken e h = take-IsInOrder rs cs f g h f.out refl e

-- Whatever happens to the goroutine of `BlockNotifications`, and in whatever order, no more than
-- sixteen blocks wait in its channel, and what the caller has read, what waits and what is to be sent
-- on are among the blocks that it received, in the order in which they came and none of them twice;
-- and until its context is done they are all the blocks that it received.
pub Run-IsInOrder : {rs cs : List Block} {f : Forwarder} → Run rs cs f → IsInOrder rs cs f
Run-IsInOrder begins = record { fits = omega arith; order = Sublist.refl []; complete = λ e. refl }
Run-IsInOrder (goes_on {rs} {cs} {f} {g} r e step) =
    forward-IsInOrder rs cs f g e step (Run-IsInOrder r)
