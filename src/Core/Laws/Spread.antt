-- ===== src/Core/Laws/Spread.antt =====
-- A transaction on its way from `SendNewTransaction` of one node into the pool of another one, through
-- the codec and `processNewTransactions`.
use toychain.Prelude.{
  ℕ, ◌≡◌, ap, ◌∙◌, some, List, ◌∷◌, ◌==◌, ◌=ᵇ◌, map, Bytes, inl, inr, if◌then◌else◌,
}
use toychain.Outcome.{Outcome, ok, Outcome-cases}
use toychain.Types.Value.{Value, Cid}
use toychain.Types.Transaction.{Transaction, Field, carried, received, IsWire}
use toychain.Types.Codec.{Cbor, marshal, unmarshal, unmarshal-marshal}
use toychain.Types.Pool.{lookup}
use toychain.Platform.{Platform, Actor}
use toychain.Contract.Laws.Actors.{actor_at}
use toychain.Chain.Manager.{state_of, block_cid}
use toychain.Chain.Process.{inform_tx}
use toychain.Chain.Laws.Offer.{inform_tx_offers}
use toychain.Core.Boot.{ToychainNode}
use toychain.Core.Send.{zero_block, send_new_transaction}
use toychain.Core.System.{Services, node_step, take_tx, tx_message, set_manager}

module _ (p : Platform) where
  published :
      (dump : Transaction → Outcome Bytes) (publish : Bytes → Outcome (Unit {0})) (tx : Transaction)
      (sent : List Bytes)
      → (send_new_transaction p dump publish tx sent).0 ≡ ok tt
      → (data' : Bytes) × (dump tx ≡ ok data')
        × ((send_new_transaction p dump publish tx sent).1 ≡ data' ∷ sent)
  unfolding send_new_transaction
  published dump publish tx sent h = elim (Outcome-cases (dump tx)) [
    | inl (data', e) ↦ elim (Outcome-cases (block_cid p zero_block)) [
      | inl (c, zero) ↦ (data', e, rw (e, zero))
      | inr (inl (x, zero)) ↦ cc (rw (e, zero) at h)
      | inr (inr zero) ↦ cc (rw (e, zero) at h)
    ]
    | inr (inl (x, e)) ↦ cc (rw e at h)
    | inr (inr e) ↦ cc (rw e at h)
  ]

  -- What a node is after a transaction came in: where the sender's account has its nonce, the pool has
  -- it under its Cid, and otherwise the pool is as it was; no other Cid is answered differently, and the
  -- best block stays.
  pub record IsOffered (tx : Transaction) (c : Cid) (act : Actor) (n n' : ToychainNode p)
      : Type 0 where
    pub best : n'.manager.best_block ≡ n.manager.best_block
    pub pool :
        (d : Cid)
        → lookup d n'.manager.tx_pool ≡ (
            if act.nonce == tx.nonce
            then (if c =ᵇ d then some tx else lookup d n.manager.tx_pool)
            else lookup d n.manager.tx_pool)

  -- Where the codec decodes what it dumped, up to its treatment of single values: a transaction that
  -- `SendNewTransaction` sent without an error is, as the codec hands it on, offered to the pool of
  -- every node that takes the message, where the sender has an actor and the transaction has a Cid; the
  -- node goes on.
  pub send_new_transaction-IsOffered :
      (cbor : Cbor) (wire : Value → Value)
      → IsWire wire
      → ((fs : List Field) (b : Bytes)
          → cbor.dump fs ≡ ok b
          → cbor.decode b ≡ ok (map (carried wire) fs))
      → (s : Services) → ((b : Bytes) → s.decode_tx b ≡ unmarshal cbor b)
      → (publish : Bytes → Outcome (Unit {0})) (tx : Transaction) (sent : List Bytes)
      → (send_new_transaction p (marshal cbor) publish tx sent).0 ≡ ok tt
      → (fuel : ℕ) (n : ToychainNode p) (act : Actor) (c : Cid)
      → actor_at p (state_of p n.manager) tx.sender ≡ ok act
      → p.wrap_tx (received wire tx) ≡ ok c
      → (data' : Bytes) × (n' : ToychainNode p) × ((send_new_transaction p
            (marshal cbor)
            publish
            tx
            sent).1
          ≡ data' ∷ sent)
        × (node_step p s fuel (tx_message data') n ≡ some (ok tt, n'))
        × IsOffered (received wire tx) c act n n'
  unfolding node_step
  send_new_transaction-IsOffered cbor wire laws codec s decodes publish tx sent h fuel n act c there
        is_cid =
      let (data', e, out) = published (marshal cbor) publish tx sent h in
      let got : Transaction = received wire tx in
      let (taken, best, pool) = inform_tx_offers p got n.manager act c there is_cid in
      let read = decodes data' ∙ unmarshal-marshal cbor wire laws codec tx data' e in
      (
        data',
        set_manager p n (inform_tx p got n.manager).1,
        out,
        ap (λ r. some (take_tx p r n)) read
            ∙ ap (λ r. some (r, set_manager p n (inform_tx p got n.manager).1)) taken,
        record { best = best; pool = pool },
      )
