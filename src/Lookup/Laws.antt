-- ===== src/Lookup/Laws.antt =====
-- `HandleMessages` and `Lookup` of lookup/lookup.go: what the messages of other peers do to the engine.
pub mod Found
use toychain.Prelude.{
  ◌≡◌, ◌≢◌, ◌∙◌, refl, true, false, Option, none, some, List, [], ◌∷◌, ◌=ᵇ◌, =ᵇ-self, Bool-cases,
  Option-cases, inl, inr, arith, Bytes, All, if◌then◌else◌,
}
use toychain.Types.Address.{Address}
use toychain.Lookup.{
  PeerId, LookupMessage, LookupEngine, Incoming, is_listed, add_address, start_lookup,
  handle_message, handle_messages, handle_locked, handle_parsed, response,
}

module _ (pretty : PeerId → Bytes) (decode : Bytes → Option PeerId) where
  -- On an unlocked engine, a response of another peer that names a peer which can be decoded is
  -- what a later lookup of its address returns, with no further message.
  pub lookup_after_response :
      (from : PeerId) (m : LookupMessage) (pid : PeerId) (le : LookupEngine)
      → (from =ᵇ le.our_peer_id) ≡ false
      → le.locked ≡ false
      → m.request ≡ false
      → decode m.peer ≡ some pid
      → (le' : LookupEngine) × (handle_message pretty decode
            (record { from = from; parsed = some m })
            le
          ≡ some le')
        × (start_lookup m.address le' ≡ some (some pid, le'))
        × (le'.sent ≡ le.sent)
  unfolding handle_message start_lookup
  lookup_after_response from m pid le other free response decoded = (
    record le {
      cache = (m.address, pid) ∷ le.cache;
      published = (m.address, pid) ∷ le.published;
      locked = false;
    },
    ground arith,
    ground (arith, =ᵇ-self m.address),
    refl,
  )

  -- On an unlocked engine, a request of another peer is answered with this engine's peer if the
  -- address is one of its own, and changes nothing otherwise; the mutex is free again.
  pub request_answered :
      (from : PeerId) (m : LookupMessage) (le : LookupEngine)
      → (from =ᵇ le.our_peer_id) ≡ false
      → le.locked ≡ false
      → m.request ≡ true
      → handle_message pretty decode (record { from = from; parsed = some m }) le
        ≡ some (
            if is_listed m.address le.our_addresses
            then record le { sent = response pretty decode le m.address ∷ le.sent }
            else le)
  unfolding handle_message
  request_answered from m le other free request = ground arith

  -- On an unlocked engine, a response of another peer that names a peer which cannot be decoded
  -- leaves the mutex locked for good: after it every lookup and every new address waits for ever,
  -- and so does the next message of another peer that can be parsed.
  pub bad_peer_stops_engine :
      (from : PeerId) (m : LookupMessage) (le : LookupEngine)
      → (from =ᵇ le.our_peer_id) ≡ false
      → le.locked ≡ false
      → m.request ≡ false
      → decode m.peer ≡ none
      → (le' : LookupEngine) × (handle_message pretty decode
            (record { from = from; parsed = some m })
            le
          ≡ some le')
        × ((a : Address) → start_lookup a le' ≡ none)
        × ((a : Address) → add_address a le' ≡ none)
        × ((from' : PeerId) (m' : LookupMessage)
            → (from' =ᵇ le.our_peer_id) ≡ false
            → handle_message pretty decode (record { from = from'; parsed = some m' }) le' ≡ none)
  unfolding handle_message start_lookup add_address
  bad_peer_stops_engine from m le other free response bad = (
    record le { locked = true },
    ground arith,
    λ a. refl,
    λ a. refl,
    λ from' m' other'. ground (arith, other'),
  )

  -- A message that does not stop the engine.
  abbrev pub IsDecodable : Option LookupMessage → Type 0
  IsDecodable none = Unit
  IsDecodable (some m) = m.request ≡ false → decode m.peer ≢ none

  handle_locked-unlocked :
      (m : LookupMessage) (le : LookupEngine)
      → IsDecodable (some m)
      → (handle_locked pretty decode m le).locked ≡ false
  handle_locked-unlocked m le good = elim (Bool-cases m.request) [
    | inl asks ↦ ground (arith, asks)
    | inr answers ↦ elim (Option-cases (decode m.peer)) [
      | inl bad ↦ absurd (good answers bad)
      | inr (pid, e) ↦ ground (arith, answers, e)
    ]
  ]

  handle_parsed-unlocked :
      (o : Option LookupMessage) (le : LookupEngine)
      → le.locked ≡ false
      → IsDecodable o
      → (le' : LookupEngine) × (handle_parsed pretty decode o le ≡ some le') × (le'.locked ≡ false)
  handle_parsed-unlocked none le free good = (le, refl, free)
  handle_parsed-unlocked (some m) le free good =
      let le' = record le { locked = true } in
      (handle_locked pretty decode m le', rw free, handle_locked-unlocked m le' good)

  handle_message-unlocked :
      (i : Incoming) (le : LookupEngine)
      → le.locked ≡ false
      → IsDecodable i.parsed
      → (le' : LookupEngine) × (handle_message pretty decode i le ≡ some le') × (le'.locked ≡ false)
  handle_message-unlocked i le free good = elim (Bool-cases (i.from =ᵇ le.our_peer_id)) [
    | inl own ↦ (le, unfold handle_message in rw own, free)
    | inr other ↦
        let (le', e, f) = handle_parsed-unlocked i.parsed le free good in
        (le', unfold handle_message in rw (other, e), f)
  ]

  handle_messages-step :
      (i : Incoming) (is : List Incoming) (le next : LookupEngine)
      → handle_message pretty decode i le ≡ some next
      → handle_messages pretty decode (i ∷ is) le ≡ handle_messages pretty decode is next
  handle_messages-step i is le next e = unfold handle_messages in rw (e, handle_messages)

  -- On an unlocked engine, messages whose responses all name peers that can be decoded never stop
  -- it: the loop takes all of them, and the mutex is free after.
  pub handle_messages_total :
      (is : List Incoming) (le : LookupEngine)
      → le.locked ≡ false
      → All (λ (i : Incoming). IsDecodable i.parsed) is
      → (le' : LookupEngine) × (handle_messages pretty decode is le ≡ some le')
        × (le'.locked ≡ false)
  handle_messages_total [] le free good = (le, unfold handle_messages in refl, free)
  handle_messages_total (i ∷ is) le free good =
      let (next, e, f) = handle_message-unlocked i le free good.0 in
      let (last, e', f') = handle_messages_total is next f good.1 in
      (last, handle_messages-step i is le next e ∙ e', f')
