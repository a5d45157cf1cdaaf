-- ===== src/Lookup.antt =====
-- lookup/lookup.go: the service that finds the peer of an address.
--
-- `lk` is the mutex. A call that has to wait for it while nobody is left to unlock it never returns:
-- that is the result `none`. Decoding a message and a peer's text, and printing a peer, are those of
-- encoding/json and go-libp2p-peer, and are parameters.
pub mod Laws
use toychain.Prelude.{
  Bool, true, false, Option, none, some, List, [], ◌∷◌, ◌=ᵇ◌, ◌||◌, Bytes, if◌then◌else◌,
}
use toychain.Outcome.{Outcome, ok, err, panic, Message, message}
use toychain.Exec.{Exec}
use toychain.Types.Address.{Address}

abbrev pub PeerId : Type 0
PeerId = Bytes

-- `message`
pub record LookupMessage : Type 0 where
  pub address : Address
  pub peer : Bytes
  pub request : Bool

pub record LookupEngine : Type 0 where
  pub locked : Bool
  pub cache : List (Address × PeerId)
  pub our_addresses : List Address
  pub our_peer_id : PeerId
  -- what was published to waiting lookups, and what was sent to the topic, the last first
  pub published : List (Address × PeerId)
  pub sent : List LookupMessage

-- `NewLookupEngine`
abbrev pub new_lookup_engine : PeerId → LookupEngine
new_lookup_engine self = record {
  locked = false;
  cache = [];
  our_addresses = [];
  our_peer_id = self;
  published = [];
  sent = [];
}

abbrev pub find_peer : Address → List (Address × PeerId) → Option PeerId
find_peer a [] = none
find_peer a ((b, pid) ∷ cache) = if b =ᵇ a then some pid else find_peer a cache

abbrev pub is_listed : Address → List Address → Bool
is_listed a [] = false
is_listed a (b ∷ l) = b =ᵇ a || is_listed a l

-- A message as `Next` returns it: who sent it, and what `json.Unmarshal` makes of its data.
pub record Incoming : Type 0 where
  pub from : PeerId
  pub parsed : Option LookupMessage

-- `AddAddress`
unfoldable pub add_address : Address → LookupEngine → Option LookupEngine
add_address a le =
    if le.locked then none else some (record le { our_addresses = a ∷ le.our_addresses })

-- The request that a lookup sends.
abbrev pub request_for : Address → LookupMessage
request_for a = record { address = a; peer = []; request = true }

-- `Lookup` up to the wait for a response: the cached peer, or none after the request was sent.
unfoldable pub start_lookup : Address → LookupEngine → Option (Option PeerId × LookupEngine)
start_lookup a le =
    if le.locked
    then none
    else some (elim (find_peer a le.cache) [
      | some pid ↦ (some pid, le)
      | none ↦ (none, record le { sent = request_for a ∷ le.sent })
    ])

-- The end of `Lookup`: the first peer that is published for the address in time, or an error.
abbrev pub awaited : Option PeerId → Outcome PeerId
awaited (some pid) = ok pid
awaited none = err (message Message.timed_out)

abbrev pub after_start :
    Option PeerId → Option (Option PeerId × LookupEngine) → Option (Outcome PeerId × LookupEngine)
after_start told (some (some pid, le)) = some (ok pid, le)
after_start told (some (none, le)) = some (awaited told, le)
after_start told none = none

-- `Lookup`, where `told` is what `HandleMessages` publishes for the address within ten seconds.
unfoldable pub look_up :
    Option PeerId → Address → LookupEngine → Option (Outcome PeerId × LookupEngine)
unfolding start_lookup
look_up told a le = after_start told (start_lookup a le)

module _ (pretty : PeerId → Bytes) (decode : Bytes → Option PeerId) where
  -- What the engine sends back to a request for one of its addresses.
  abbrev pub response : LookupEngine → Address → LookupMessage
  response le a = record { address = a; peer = pretty le.our_peer_id; request = false }

  -- The part between `Lock` and `Unlock`; on a peer that cannot be decoded `continue` leaves the
  -- mutex locked.
  abbrev pub handle_locked : LookupMessage → LookupEngine → LookupEngine
  handle_locked m le =
      if m.request
      then if is_listed m.address le.our_addresses
        then record le { sent = response le m.address ∷ le.sent; locked = false }
        else record le { locked = false }
      else elim (decode m.peer) [
        | none ↦ le
        | some pid ↦ record le {
          cache = (m.address, pid) ∷ le.cache;
          published = (m.address, pid) ∷ le.published;
          locked = false;
        }
      ]

  abbrev pub handle_parsed : Option LookupMessage → LookupEngine → Option LookupEngine
  handle_parsed none le = some le
  handle_parsed (some m) le =
      if le.locked then none else some (handle_locked m (record le { locked = true }))

  -- One round of `HandleMessages`.
  unfoldable pub handle_message : Incoming → LookupEngine → Option LookupEngine
  handle_message i le = if i.from =ᵇ le.our_peer_id then some le else handle_parsed i.parsed le

  -- The loop over the messages that come in.
  unfoldable pub handle_messages : List Incoming → LookupEngine → Option LookupEngine
  unfolding handle_message
  handle_messages [] le = some le
  handle_messages (i ∷ is) le = elim (handle_message i le) [
    | none ↦ none
    | some le' ↦ handle_messages is le'
  ]

-- `SendMessage`, where the JSON codec and the topic are arguments, and the state is the data that was
-- handed to `Publish`, the last first. Errors are only logged.
module _ (marshal : LookupMessage → Outcome Bytes) (publish : Bytes → Outcome (Unit {0})) where
  abbrev pub after_publish : Outcome (Unit {0}) → Outcome (Unit {0})
  after_publish (ok u) = ok tt
  after_publish (err e) = ok tt
  after_publish panic = panic

  abbrev pub publish_data : Outcome Bytes → Exec (List Bytes) (Unit {0})
  publish_data (ok data') sent = (after_publish (publish data'), data' ∷ sent)
  publish_data (err e) sent = (ok tt, sent)
  publish_data panic sent = (panic, sent)

  unfoldable pub send_message : LookupMessage → Exec (List Bytes) (Unit {0})
  send_message m = publish_data (marshal m)
