-- ===== src/Chain/Laws/Offer.antt =====
-- `InformTx` of state/state_manager.go, and the pool's answers after it.
use toychain.Prelude.{◌≡◌, some, ◌==◌, ◌=ᵇ◌, Bool-cases, inl, inr, arith, if◌then◌else◌}
use toychain.Outcome.{ok}
use toychain.Types.Value.{Cid}
use toychain.Types.Transaction.{Transaction}
use toychain.Types.Pool.{lookup, insert, add, lookup-insert}
use toychain.Platform.{Platform, Actor}
use toychain.Contract.Laws.Actors.{actor_at}
use toychain.Contract.World.{get_actor}
use toychain.Chain.Manager.{Manager, state_of}
use toychain.Chain.Process.{inform_tx}

module _ (p : Platform) (tx : Transaction) (m : Manager p) (act : Actor) (c : Cid) where
  offered :
      actor_at p (state_of p m) tx.sender ≡ ok act
      → p.wrap_tx tx ≡ ok c
      → inform_tx p tx m ≡ (
        ok tt,
        (if act.nonce == tx.nonce then record m { tx_pool = insert c tx m.tx_pool } else m),
      )
  unfolding inform_tx actor_at get_actor add
  offered h e = ground (arith, h, e)

  -- Where the sender has an actor and the transaction a Cid, `InformTx` leaves the transaction in the
  -- pool under that Cid if it carries the sender's nonce, and the pool as it was otherwise; what the
  -- pool answers for any other Cid stays, and so does the best block.
  pub inform_tx_offers :
      actor_at p (state_of p m) tx.sender ≡ ok act
      → p.wrap_tx tx ≡ ok c
      → ((inform_tx p tx m).0 ≡ ok tt)
        × ((inform_tx p tx m).1.best_block ≡ m.best_block)
        × ((d : Cid)
            → lookup d (inform_tx p tx m).1.tx_pool ≡ (
                if act.nonce == tx.nonce
                then (if c =ᵇ d then some tx else lookup d m.tx_pool)
                else lookup d m.tx_pool))
  inform_tx_offers h e = elim (Bool-cases (act.nonce == tx.nonce)) [
    | inl fresh ↦ (
      rw (offered h e),
      rw (offered h e, fresh),
      λ d. rw (offered h e, fresh, lookup-insert c d tx m.tx_pool),
    )
    | inr stale ↦ (rw (offered h e), rw (offered h e, stale), λ d. rw (offered h e, stale))
  ]
