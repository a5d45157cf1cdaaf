-- ===== src/Chain/Notify.antt =====
-- `BlockNotifications` of state/state_manager.go: the goroutine that hands on what `blkNotif`
-- publishes, one event at a time.
--
-- The topic's channel has no buffer, so a block leaves it when the goroutine receives it. The channel
-- that the caller reads has sixteen places; a caller that waits takes a block out of one of them.
use toychain.Prelude.{
  ℕ, Bool, true, false, Option, none, some, List, [], ◌∷◌, ◌++◌, length, ltb, if◌then◌else◌, ◌≡◌,
}
use toychain.Types.Block.{Block}

-- `make(chan *types.Block, 16)`
abbrev pub out_size : ℕ
out_size = 16

pub record Forwarder : Type 0 where
  -- the block that was received and is to be sent on
  pub held : Option Block
  -- what waits in `out`, the oldest first
  pub out : List Block
  -- the context is done
  pub done : Bool
  -- the goroutine has returned: it has unsubscribed and closed `out`
  pub closed : Bool

abbrev pub block_notifications : Forwarder
block_notifications = record { held = none; out = []; done = false; closed = false }

-- What may happen next: the cases of the two selects, the end of the context, and a read of the caller.
pub data ForwardEvent : Type 0 where
  received : Block → ForwardEvent
  sent_on dropped returned cancelled taken : ForwardEvent

abbrev pub receive : Block → Option Block → Forwarder → Option Forwarder
receive b none f = some (record f { held = some b })
receive b (some c) f = none

abbrev pub send_on : Option Block → Forwarder → Option Forwarder
send_on none f = none
send_on (some b) f =
    if ltb (length f.out) out_size
    then some (record f { held = none; out = f.out ++ b ∷ [] })
    else none

abbrev pub drop : Option Block → Forwarder → Option Forwarder
drop none f = none
drop (some b) f = if f.done then some (record f { held = none }) else none

abbrev pub return_if : Option Block → Forwarder → Option Forwarder
return_if none f = if f.done then some (record f { closed = true }) else none
return_if (some b) f = none

abbrev pub take_from : List Block → Forwarder → Option Forwarder
take_from [] f = none
take_from (b ∷ rest) f = some (record f { out = rest })

-- One event; `none` where it cannot happen. After the goroutine has returned only reads go on.
unfoldable pub forward : ForwardEvent → Forwarder → Option Forwarder
forward (received b) f = if f.closed then none else receive b f.held f
forward sent_on f = if f.closed then none else send_on f.held f
forward dropped f = if f.closed then none else drop f.held f
forward returned f = if f.closed then none else return_if f.held f
forward cancelled f = some (record f { done = true })
forward taken f = take_from f.out f

-- The block that an event brings in, and the one that it hands to the caller.
abbrev pub brought : ForwardEvent → List Block
brought (received b) = b ∷ []
brought _ = []

abbrev pub first_of : List Block → List Block
first_of [] = []
first_of (b ∷ rest) = b ∷ []

abbrev pub handed : ForwardEvent → Forwarder → List Block
handed taken f = first_of f.out
handed _ f = []

-- The runs of the goroutine, with all that it received and all that the caller read, the first first.
pub data Run : List Block → List Block → Forwarder → Type 0 where
  begins : Run [] [] block_notifications
  goes_on :
      {rs cs : List Block} {f g : Forwarder}
      → Run rs cs f
      → (e : ForwardEvent) → forward e f ≡ some g
      → Run (rs ++ brought e) (cs ++ handed e f) g
