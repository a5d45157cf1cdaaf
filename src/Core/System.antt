-- ===== src/Core/System.antt =====
-- The running node of core/node.go: its subscription loops, its miner and its hello handler, one
-- event at a time, in any order.
--
-- What the codec makes of a message's data, the order in which Go runs through the pool's map, and
-- what the pubsub service says when a block is published are arguments.
--
-- In the source the loop of a subscription stands still until the miner has taken the block that it
-- sent. Here it may go on, so that the runs include those of the source.
use mathlib.Core.Option
use toychain.Prelude.{ℕ, Option, none, some, List, [], ◌∷◌, ◌++◌, ◌=ᵇ◌, Bytes, if◌then◌else◌, ◌≡◌}
use toychain.Outcome.{Outcome, ok, err, panic}
use toychain.Types.Address.{Address}
use toychain.Types.Transaction.{Transaction}
use toychain.Types.Block.{Block}
use toychain.Platform.{Platform}
use toychain.Lookup.{PeerId}
use toychain.Chain.Manager.{Manager}
use toychain.Chain.Process.{inform, inform_tx}
use toychain.Chain.Miner.{Miner, Event, block_found, new_block, run_round}
use toychain.Commands.Addrs.{addrs_new}
use toychain.Core.Boot.{ToychainNode}
use toychain.Core.Node.{HelloMessage, handle_hello, send_new_block}

-- What reaches the node: a message on one of its two subscriptions, the failure of one, a decoded
-- hello message or none, the miner's timer, the miner's read of `newBlocks`, or a new address.
pub data NodeEvent : Type 0 where
  block_message : PeerId → Bytes → NodeEvent
  tx_message : Bytes → NodeEvent
  subscription_failed : NodeEvent
  hello_stream : Option HelloMessage → NodeEvent
  timer_fired miner_receives : NodeEvent
  address_added : Address → NodeEvent

-- The calls of the node that others answer.
pub record Services : Type 0 where
  pub decode_block : Bytes → Outcome Block
  pub decode_tx : Bytes → Outcome Transaction
  pub order : List Transaction → List Transaction
  pub publish_block : Block → Outcome (Unit {0})

module _ (p : Platform) where
  abbrev pub Stepped : Type 0
  Stepped = Outcome (Unit {0}) × ToychainNode p

  abbrev pub set_manager : ToychainNode p → Manager p → ToychainNode p
  set_manager n m = record n { manager = m }

  -- What `Inform` leaves: its send to `newBlocks` waits for the miner.
  abbrev pub informed : ToychainNode p → Outcome (Option Block) × Manager p → Stepped
  informed n (ok (some blk), m) = (ok tt, record n { manager = m; inbox = n.inbox ++ blk ∷ [] })
  informed n (ok none, m) = (ok tt, set_manager n m)
  informed n (err e, m) = (err e, set_manager n m)
  informed n (panic, m) = (panic, set_manager n m)

  -- `processNewBlocks` on one message that is not the node's own.
  abbrev pub take_block : ℕ → Outcome Block → ToychainNode p → Option Stepped
  take_block fuel (ok blk) n = Option.map (informed n) (inform p fuel blk n.manager)
  take_block fuel (err e) n = some (panic, n)
  take_block fuel panic n = some (panic, n)

  -- `processNewTransactions` on one message.
  abbrev pub take_tx : Outcome Transaction → ToychainNode p → Stepped
  take_tx (ok tx) n = let (r, m) = inform_tx p tx n.manager in (r, set_manager n m)
  take_tx (err e) n = (panic, n)
  take_tx panic n = (panic, n)

  abbrev pub take_hello : ℕ → Option HelloMessage → ToychainNode p → Option Stepped
  take_hello fuel (some h) n = Option.map (informed n) (handle_hello p fuel h n.manager)
  take_hello fuel none n = some (ok tt, n)

  -- A round of the miner's loop is over.
  abbrev pub mined : ToychainNode p → Outcome Miner × Manager p → Stepped
  mined n (ok miner, m) = (ok tt, record n { manager = m; miner = miner })
  mined n (err e, m) = (err e, set_manager n m)
  mined n (panic, m) = (panic, set_manager n m)

  module _ (s : Services) where
    -- One round of `Run`, where a mined block goes to `SendNewBlock`.
    abbrev pub round : ℕ → Event → ToychainNode p → Option Stepped
    round fuel e n =
        Option.map (mined n)
          (run_round p s.order (send_new_block p s.publish_block fuel) e n.miner n.manager)

    abbrev pub receive : ℕ → List Block → ToychainNode p → Option Stepped
    receive fuel [] n = some (ok tt, n)
    receive fuel (blk ∷ waiting) n = round fuel (new_block blk) (record n { inbox = waiting })

    -- One event; `none` means that a walk down the chain has not ended within the fuel.
    unfoldable pub node_step : ℕ → NodeEvent → ToychainNode p → Option Stepped
    node_step fuel (block_message from data') n =
        if from =ᵇ n.self then some (ok tt, n) else take_block fuel (s.decode_block data') n
    node_step fuel (tx_message data') n = some (take_tx (s.decode_tx data') n)
    node_step fuel subscription_failed n = some (panic, n)
    node_step fuel (hello_stream h) n = take_hello fuel h n
    node_step fuel timer_fired n = round fuel block_found n
    node_step fuel miner_receives n = receive fuel n.inbox n
    node_step fuel (address_added a) n = some (ok tt, addrs_new p a n)

    -- A node takes part as long as no event makes it panic.
    pub data Step (n : ToychainNode p) : ToychainNode p → Type 0 where
      takes :
          {after : ToychainNode p} (fuel : ℕ) (e : NodeEvent)
          → node_step fuel e n ≡ some (ok tt, after)
          → Step n after

    pub data Reach (n : ToychainNode p) : ToychainNode p → Type 0 where
      here : Reach n n
      next : {m after : ToychainNode p} → Reach n m → Step m after → Reach n after
