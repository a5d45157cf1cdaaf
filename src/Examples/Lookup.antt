-- ===== src/Examples/Lookup.antt =====
-- Messages that a lookup engine takes in, where a peer is any text but the empty one.
use toychain.Prelude.{◌≡◌, refl, ◌=ᵇ◌, true, false, Option, none, some, [], ◌∷◌, Bytes}
use toychain.Types.Address.{Address}
use toychain.Lookup.{
  PeerId, LookupMessage, LookupEngine, Incoming, new_lookup_engine, add_address, start_lookup,
  handle_message, handle_messages,
}
use toychain.Lookup.Laws.Found.{Found, lookup_finds_owner}
use toychain.Lookup.Laws.{bad_peer_stops_engine, handle_messages_total}

abbrev us : PeerId
us = 1 ∷ []

abbrev them : PeerId
them = 2 ∷ []

abbrev pretty : PeerId → Bytes
pretty p = p

abbrev decode : Bytes → Option PeerId
decode [] = none
decode (b ∷ bs) = some (b ∷ bs)

abbrev engine : LookupEngine
engine = record (new_lookup_engine us) { our_addresses = (7 ∷ []) ∷ [] }

-- `them` says where the address 5 is, and asks for the address 7.
abbrev answer : Bytes → LookupMessage
answer peer = record { address = 5 ∷ []; peer = peer; request = false }

abbrev question : LookupMessage
question = record { address = 7 ∷ []; peer = []; request = true }

abbrev from_them : LookupMessage → Incoming
from_them m = record { from = them; parsed = some m }

-- An engine that asks `us` for the address 7.
abbrev asking : LookupEngine
asking = new_lookup_engine them

lookup_finds_owner_example : Found pretty decode (7 ∷ []) asking engine
unfolding ◌=ᵇ◌
lookup_finds_owner_example =
    lookup_finds_owner pretty decode (7 ∷ []) asking engine refl refl refl refl refl refl

bad_peer_stops_engine_example :
    (le : LookupEngine) × (handle_message pretty decode (from_them (answer [])) engine ≡ some le)
    × ((a : Address) → start_lookup a le ≡ none)
    × ((a : Address) → add_address a le ≡ none)
    × ((from : PeerId) (m : LookupMessage)
        → (from =ᵇ us) ≡ false
        → handle_message pretty decode (record { from = from; parsed = some m }) le ≡ none)
unfolding ◌=ᵇ◌
bad_peer_stops_engine_example =
    bad_peer_stops_engine pretty decode them (answer []) engine refl refl refl refl

handle_messages_total_example :
    (le : LookupEngine) × (handle_messages pretty decode
        (from_them (answer them) ∷ from_them question ∷ [])
        engine
      ≡ some le)
    × (le.locked ≡ false)
handle_messages_total_example =
    handle_messages_total pretty decode (from_them (answer them) ∷ from_them question ∷ []) engine
      refl ((λ e h. cc), ((λ e h. cc), tt))
