-- ===== src/Lookup/Laws/Found.antt =====
-- A lookup from the engine that asks, over the one that owns the address, and back.
use toychain.Prelude.{
  ◌≡◌, refl, true, false, Option, none, some, ◌∷◌, ◌=ᵇ◌, =ᵇ-symm, Bytes, arith, ◌∙◌,
}
use toychain.Types.Address.{Address}
use toychain.Lookup.{
  PeerId, LookupEngine, is_listed, find_peer, request_for, response, start_lookup, handle_message,
}
use toychain.Lookup.Laws.{request_answered, lookup_after_response}

module _ (pretty : PeerId → Bytes) (decode : Bytes → Option PeerId) where
  -- What the three messages of a lookup leave.
  pub record Found (a : Address) (asking owner : LookupEngine) : Type 0 where
    pub asked : LookupEngine
    pub answering : LookupEngine
    pub told : LookupEngine
    pub asks : start_lookup a asking ≡ some (none, asked)
    pub request : asked.sent ≡ request_for a ∷ asking.sent
    pub answers :
        handle_message pretty decode
          (record { from = asking.our_peer_id; parsed = some (request_for a) })
          owner
        ≡ some answering
    pub reply : answering.sent ≡ response pretty decode owner a ∷ owner.sent
    pub hears :
        handle_message pretty decode
          (record { from = owner.our_peer_id; parsed = some (response pretty decode owner a) })
          asked
        ≡ some told
    pub finds : start_lookup a told ≡ some (some owner.our_peer_id, told)

  asks_for :
      (a : Address) (le : LookupEngine)
      → le.locked ≡ false
      → find_peer a le.cache ≡ none
      → start_lookup a le ≡ some (none, record le { sent = request_for a ∷ le.sent })
  unfolding start_lookup
  asks_for a le free missing = ground arith

  -- On two unlocked engines of different peers, where the second owns the address, the first has no
  -- peer for it in its cache, and the text of the second's peer is decoded back: the first sends a
  -- request, the second answers it with its peer, and once the first has taken the answer in, a lookup
  -- of the address returns the second's peer.
  pub lookup_finds_owner :
      (a : Address) (asking owner : LookupEngine)
      → asking.locked ≡ false
      → owner.locked ≡ false
      → (asking.our_peer_id =ᵇ owner.our_peer_id) ≡ false
      → is_listed a owner.our_addresses ≡ true
      → find_peer a asking.cache ≡ none
      → decode (pretty owner.our_peer_id) ≡ some owner.our_peer_id
      → Found a asking owner
  lookup_finds_owner a asking owner free free' other owned missing decoded =
      let asked : LookupEngine = record asking { sent = request_for a ∷ asking.sent } in
      let (told, hears, finds, _) =
        lookup_after_response pretty decode owner.our_peer_id (response pretty decode owner a)
          owner.our_peer_id asked (=ᵇ-symm owner.our_peer_id asking.our_peer_id ∙ other) free refl
          decoded in
      record {
        asked = asked;
        answering = record owner { sent = response pretty decode owner a ∷ owner.sent };
        told = told;
        asks = asks_for a asking free missing;
        request = refl;
        answers =
            request_answered pretty decode asking.our_peer_id (request_for a) owner other free' refl
            ∙ rw owned;
        reply = refl;
        hears = hears;
        finds = finds;
      }
