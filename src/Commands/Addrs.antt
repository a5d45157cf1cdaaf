-- ===== src/Commands/Addrs.antt =====
-- `AddrsNewCmd`, `AddrsListCmd` and `AddrsLookupCmd` of commands/all_commands_fixme.go.
--
-- `CreateNewAddress` draws twenty random bytes, which are an argument.
use toychain.Prelude.{Option, none, some, List, [], ◌∷◌, ◌++◌, Bytes}
use toychain.Outcome.{Outcome, ok, err, panic}
use toychain.Types.Address.{Address, parse_address}
use toychain.Platform.{Platform}
use toychain.Lookup.{PeerId, LookupEngine, look_up}
use toychain.Core.Boot.{ToychainNode}

module _ (p : Platform) where
  -- `AddrsNewCmd`
  abbrev pub addrs_new : Address → ToychainNode p → ToychainNode p
  addrs_new fresh n = record n { addresses = n.addresses ++ fresh ∷ [] }

  -- `AddrsListCmd`
  abbrev pub addrs_list : ToychainNode p → List Address
  addrs_list n = n.addresses

  abbrev pub answered :
      ToychainNode p
      → Option (Outcome PeerId × LookupEngine)
      → Option (Outcome PeerId × ToychainNode p)
  answered n (some (peer, le)) = some (peer, record n { lookup = le })
  answered n none = none

  abbrev pub looked_up :
      Option PeerId → Outcome Address → ToychainNode p → Option (Outcome PeerId × ToychainNode p)
  looked_up told (ok a) n = answered n (look_up told a n.lookup)
  looked_up told (err e) n = some (err e, n)
  looked_up told panic n = some (panic, n)

  -- `AddrsLookupCmd`, where `told` is what comes in for the address in time; `none` means that it waits
  -- for the mutex for ever.
  unfoldable pub addrs_lookup :
      Option PeerId → Bytes → ToychainNode p → Option (Outcome PeerId × ToychainNode p)
  unfolding parse_address look_up
  addrs_lookup told text n = looked_up told (parse_address text) n
