-- ===== src/Commands/Laws/Addrs.antt =====
-- `AddrsNewCmd` and what the lookup service makes of the new address.
use toychain.Prelude.{
  ◌≡◌, ◌∙◌, true, false, Option, some, List, [], ◌∷◌, ◌++◌, ◌=ᵇ◌, =ᵇ-self, Bytes, arith,
}
use toychain.Types.Address.{Address}
use toychain.Platform.{Platform}
use toychain.Lookup.{PeerId, LookupMessage, is_listed, handle_message}
use toychain.Lookup.Laws.{request_answered}
use toychain.Core.Boot.{ToychainNode}
use toychain.Core.Node.{is_our_address}
use toychain.Commands.Addrs.{addrs_new}

is_our_address-append : (l : List Address) (a : Address) → is_our_address (l ++ a ∷ []) a ≡ true
unfolding is_our_address
is_our_address-append [] a = ground (arith, =ᵇ-self a)
is_our_address-append (b ∷ l) a = ground (arith, is_our_address-append l a)

module _ (p : Platform) (pretty : PeerId → Bytes) (decode : Bytes → Option PeerId) where
  -- An address that `AddrsNewCmd` made, and that the lookup service did not list before, is one of the
  -- node's own; but while the service's mutex is free, it does not answer another peer's request
  -- for it, and stays as it is.
  pub new_address_unanswered :
      (fresh : Address) (n : ToychainNode p) (from : PeerId) (m : LookupMessage)
      → is_listed fresh n.lookup.our_addresses ≡ false
      → n.lookup.locked ≡ false
      → (from =ᵇ n.lookup.our_peer_id) ≡ false
      → m.request ≡ true
      → m.address ≡ fresh
      → (is_our_address (addrs_new p fresh n).addresses fresh ≡ true)
        × (handle_message pretty decode
              (record { from = from; parsed = some m })
              (addrs_new p fresh n).lookup
            ≡ some n.lookup)
  new_address_unanswered fresh n from m unlisted free other asks asked = (
    is_our_address-append n.addresses fresh,
    request_answered pretty decode from m n.lookup other free asks ∙ rw (asked, unlisted),
  )
