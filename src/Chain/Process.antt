-- ===== src/Chain/Process.antt =====
-- `ProcessNewBlock`, `Inform` and `InformTx` of state/state_manager.go.
use mathlib.Core.Option
use toychain.Prelude.{ℕ, Option, none, some, not, ltb, ◌==◌, if◌then◌else◌}
use toychain.Outcome.{Outcome, ok, err, panic, Context, wrap, Message, message}
use toychain.Types.Transaction.{Transaction}
use toychain.Types.Block.{Block, score}
use toychain.Types.Pool.{Pool, add}
use toychain.Platform.{Platform, Actor}
use toychain.Contract.World.{get_actor}
use toychain.Chain.Manager.{Manager, accept_new_block, state_of}
use toychain.Chain.Validate.{validate_block}

module _ (p : Platform) where
  -- `ProcessNewBlock` after the validation.
  unfoldable pub after_validation :
      Block → Outcome (Unit {0}) × Manager p → Outcome (Unit {0}) × Manager p
  unfolding score
  after_validation blk (ok u, m) =
      if ltb (score m.best_block) (score blk)
      then accept_new_block p blk m
      else (err (message Message.new_block_not_better), m)
  after_validation blk (err e, m) = (err (wrap Context.validate e), m)
  after_validation blk (panic, m) = (panic, m)

  -- `ProcessNewBlock`; `none` means that the walk down the chain has not ended within the fuel.
  unfoldable pub process_new_block : ℕ → Block → Manager p → Option (Outcome (Unit {0}) × Manager p)
  unfolding after_validation
  process_new_block fuel blk m = Option.map (after_validation blk) (validate_block p fuel blk m)

  -- The block that `Inform` sends to the miner: the processed one, unless an error was logged.
  abbrev pub to_miner : Block → Outcome (Unit {0}) → Outcome (Option Block)
  to_miner blk (ok u) = ok (some blk)
  to_miner blk (err e) = ok none
  to_miner blk panic = panic

  -- `Inform`
  unfoldable pub inform : ℕ → Block → Manager p → Option (Outcome (Option Block) × Manager p)
  inform fuel blk m = Option.map (λ r. (to_miner blk r.0, r.1)) (process_new_block fuel blk m)

  abbrev pub with_pool : Manager p → Outcome Pool → Outcome (Unit {0}) × Manager p
  with_pool m (ok pool) = (ok tt, record m { tx_pool = pool })
  with_pool m (err e) = (ok tt, m)
  with_pool m panic = (panic, m)

  abbrev pub offer : Transaction → Manager p → Outcome Actor → Outcome (Unit {0}) × Manager p
  offer tx m (ok act) =
      if not (act.nonce == tx.nonce) then (ok tt, m) else with_pool m (add p.wrap_tx tx m.tx_pool)
  offer tx m (err e) = (ok tt, m)
  offer tx m panic = (panic, m)

  -- `InformTx`: a transaction that is not wanted is dropped with a line in the log.
  unfoldable pub inform_tx : Transaction → Manager p → Outcome (Unit {0}) × Manager p
  unfolding add get_actor
  inform_tx tx m = offer tx m (get_actor p tx.sender (state_of p m)).0
