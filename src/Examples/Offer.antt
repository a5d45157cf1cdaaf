-- ===== src/Examples/Offer.antt =====
-- A transaction of Alice's that comes in at a manager with an empty pool.
use toychain.Examples.Toy.{toy_unmarshal}
use toychain.Examples.Toy.{toy_find}
use toychain.Contract.World.{get_actor}
use toychain.Prelude.{◌≡◌, refl, ◌=ᵇ◌, ◌==◌, some, [], ◌∷◌, if◌then◌else◌}
use toychain.Outcome.{ok}
use toychain.Prelude.Int.{pos}
use toychain.Types.Value.{Cid}
use toychain.Types.Pool.{lookup}
use toychain.Contract.Laws.Actors.{actor_at}
use toychain.Core.Genesis.{genesis_block}
use toychain.Chain.Manager.{Manager, state_of}
use toychain.Chain.Process.{inform_tx}
use toychain.Chain.Laws.Offer.{inform_tx_offers}
use toychain.Examples.Toy.{toy}
use toychain.Chain.Laws.Order.{seen, inform_tx_comm}
use toychain.Types.Transaction.{Transaction}
use toychain.Examples.Contract.{alice, bob, args, user, world, actors, tx}

abbrev manager : Manager toy
manager = record {
  store = world.store;
  best_block = genesis_block (1 ∷ []);
  head_cid = some (0 ∷ 0 ∷ []);
  state_root = actors;
  tx_pool = [];
  known_good_blocks = [];
  notified = [];
}

alice_there : actor_at toy (state_of toy manager) alice ≡ ok (user 3)
unfolding actor_at get_actor toy_find ◌=ᵇ◌ toy_unmarshal
alice_there = refl

inform_tx_offers_example :
    ((inform_tx toy (tx 3 (pos 30)) manager).0 ≡ ok tt)
    × ((inform_tx toy (tx 3 (pos 30)) manager).1.best_block ≡ genesis_block (1 ∷ []))
    × ((d : Cid)
        → lookup d (inform_tx toy (tx 3 (pos 30)) manager).1.tx_pool ≡ (
            if (user 3).nonce == 3
            then (if (3 ∷ alice) =ᵇ d then some (tx 3 (pos 30)) else lookup d [])
            else lookup d []))
inform_tx_offers_example =
    inform_tx_offers toy (tx 3 (pos 30)) manager (user 3) (3 ∷ alice) alice_there refl

-- Bob sends to Alice.
abbrev back : Transaction
back = record (tx 0 (pos 5)) { sender = bob; params = args alice (pos 5) }

-- Their Cids on the example platform name their senders.
apart :
    (c : Cid) → toy.wrap_tx (tx 3 (pos 30)) ≡ ok c → toy.wrap_tx back ≡ ok c → tx 3 (pos 30) ≡ back
apart c h h' = absurd (cc (h, h'))

inform_tx_comm_example :
    seen toy (inform_tx toy back (inform_tx toy (tx 3 (pos 30)) manager).1).1
    ≡ seen toy (inform_tx toy (tx 3 (pos 30)) (inform_tx toy back manager).1).1
inform_tx_comm_example = inform_tx_comm toy (tx 3 (pos 30)) back manager apart
