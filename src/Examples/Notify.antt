-- ===== src/Examples/Notify.antt =====
-- Two blocks are published; the caller reads the first, and its context is done before the second.
use toychain.Prelude.{refl, true, none, [], ◌∷◌}
use toychain.Types.Block.{Block}
use toychain.Chain.Notify.{
  Forwarder, received, sent_on, dropped, returned, cancelled, taken, forward, Run, begins, goes_on,
}
use toychain.Chain.Laws.Notify.{IsInOrder, Run-IsInOrder}
use toychain.Core.Genesis.{genesis_block}

abbrev one : Block
one = record (genesis_block (1 ∷ [])) { height = 1 }

abbrev two : Block
two = record (genesis_block (1 ∷ [])) { height = 2 }

abbrev end : Forwarder
end = record { held = none; out = []; done = true; closed = true }

ends : Run (one ∷ two ∷ []) (one ∷ []) end
unfolding forward
ends =
    goes_on
      (goes_on
        (goes_on
          (goes_on
            (goes_on (goes_on (goes_on begins (received one) refl) sent_on refl) (received two)
              refl)
            taken refl)
          cancelled refl)
        dropped refl)
      returned refl

Run-IsInOrder_example : IsInOrder (one ∷ two ∷ []) (one ∷ []) end
Run-IsInOrder_example = Run-IsInOrder ends
