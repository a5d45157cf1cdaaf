-- ===== src/Chain/Laws/Order.antt =====
-- `InformTx` on transactions that come in in another order.
use toychain.Prelude.{◌≡◌, refl, sym, ap, ◌∙◌, ◌=ᵇ◌, ◌==◌, Bool-cases, inl, inr, =ᵇ→eq}
use toychain.Outcome.{Outcome, ok, err, panic, Outcome-cases}
use toychain.Types.Value.{Cid}
use toychain.Types.Transaction.{Transaction}
use toychain.Types.Pool.{Pool, empty_pool, insert, add}
use toychain.Types.TxMap.{TxMap, map_of, insert_comm}
use toychain.Platform.{Platform, Actor}
use toychain.Contract.World.{get_actor}
use toychain.Chain.Manager.{Manager, state_of}
use toychain.Chain.Process.{inform_tx}

module _ (p : Platform) where
  abbrev with_txs : Manager p → Pool → Manager p
  with_txs m pool = record m { tx_pool = pool }

  -- The pool as a map, and the rest of the manager.
  abbrev pub seen : Manager p → TxMap × Manager p
  seen m = (map_of m.tx_pool, with_txs m empty_pool)

  -- What `InformTx` does to any pool, by the state: it leaves it, or inserts the transaction.
  data Offered (tx : Transaction) (m : Manager p) : Type 0 where
    dropped :
        ((pool : Pool) → (inform_tx p tx (with_txs m pool)).1 ≡ with_txs m pool) → Offered tx m
    inserted :
        (c : Cid)
        → p.wrap_tx tx ≡ ok c
        → ((pool : Pool) → (inform_tx p tx (with_txs m pool)).1 ≡ with_txs m (insert c tx pool))
        → Offered tx m

  inform_tx-Offered : (tx : Transaction) (m : Manager p) → Offered tx m
  inform_tx-Offered tx m = by_actor (get_actor p tx.sender (state_of p m)).0 refl
    where
      by_actor : (r : Outcome Actor) → (get_actor p tx.sender (state_of p m)).0 ≡ r → Offered tx m
      by_actor (err x) e = dropped (λ pool. unfold inform_tx in rw e)
      by_actor panic e = dropped (λ pool. unfold inform_tx in rw e)
      by_actor (ok act) e = elim (Bool-cases (act.nonce == tx.nonce)) [
        | inr stale ↦ dropped (λ pool. unfold inform_tx in rw (e, stale))
        | inl fresh ↦ elim (Outcome-cases (p.wrap_tx tx)) [
          | inl (c, is_cid) ↦
              inserted c is_cid (λ pool. unfold inform_tx add in rw (e, fresh, is_cid))
          | inr (inl (x, bad)) ↦ dropped (λ pool. unfold inform_tx add in rw (e, fresh, bad))
          | inr (inr bad) ↦ dropped (λ pool. unfold inform_tx add in rw (e, fresh, bad))
        ]
      ]

  swapped : (t : Transaction) {a b : Manager p} → a ≡ b → (inform_tx p t a).1 ≡ (inform_tx p t b).1
  swapped t e = ap (λ m. (inform_tx p t m).1) e

  both :
      (s t : Transaction) (m : Manager p)
      → ((c : Cid) → p.wrap_tx s ≡ ok c → p.wrap_tx t ≡ ok c → s ≡ t)
      → Offered s m
      → Offered t m
      → seen (inform_tx p t (inform_tx p s m).1).1 ≡ seen (inform_tx p s (inform_tx p t m).1).1
  both s t m apart (dropped f) (dropped g) =
      ap seen (swapped t (f m.tx_pool) ∙ g m.tx_pool)
      ∙ ap seen (sym (swapped s (g m.tx_pool) ∙ f m.tx_pool))
  both s t m apart (dropped f) (inserted d is_d g) =
      ap seen (swapped t (f m.tx_pool) ∙ g m.tx_pool)
      ∙ ap seen (sym (swapped s (g m.tx_pool) ∙ f (insert d t m.tx_pool)))
  both s t m apart (inserted c is_c f) (dropped g) =
      ap seen (swapped t (f m.tx_pool) ∙ g (insert c s m.tx_pool))
      ∙ ap seen (sym (swapped s (g m.tx_pool) ∙ f m.tx_pool))
  both s t m apart (inserted c is_c f) (inserted d is_d g) = elim (Bool-cases (c =ᵇ d)) [
    | inl same ↦
        let one = apart c is_c (is_d ∙ ap ok (sym (=ᵇ→eq c d same))) in
        ap (λ (u : Transaction). seen (inform_tx p u (inform_tx p s m).1).1) (sym one)
        ∙ ap (λ (u : Transaction). seen (inform_tx p s (inform_tx p u m).1).1) one
    | inr other ↦
        ap seen (swapped t (f m.tx_pool) ∙ g (insert c s m.tx_pool))
        ∙ ap (λ x. (x, with_txs m empty_pool)) (sym (insert_comm c d s t m.tx_pool other))
        ∙ ap seen (sym (swapped s (g m.tx_pool) ∙ f (insert d t m.tx_pool)))
  ]

  -- Two transactions that come in in either order leave the same manager, with the pool taken as a
  -- map, whether they are wanted or not, if they are one transaction where they have one Cid.
  pub inform_tx_comm :
      (s t : Transaction) (m : Manager p)
      → ((c : Cid) → p.wrap_tx s ≡ ok c → p.wrap_tx t ≡ ok c → s ≡ t)
      → seen (inform_tx p t (inform_tx p s m).1).1 ≡ seen (inform_tx p s (inform_tx p t m).1).1
  inform_tx_comm s t m apart = both s t m apart (inform_tx-Offered s m) (inform_tx-Offered t m)
