-- ===== src/Core/Send.antt =====
-- `SendNewTransaction` and `SendNewTransactionAndWait` of core/node.go.
--
-- The codec of a transaction and the pubsub service are arguments. The state is the data that was
-- handed to `Publish`, the last first.
use toychain.Prelude.{Option, none, some, List, [], ◌∷◌, Bytes}
use toychain.Outcome.{Outcome, ok, err, panic, Error, Context, wrapping}
use toychain.Exec.{Exec, lift, ◌>>=◌, ◌>>◌}
use toychain.Types.Value.{Cid}
use toychain.Types.Transaction.{Transaction}
use toychain.Types.Block.{Block}
use toychain.Platform.{Platform}
use toychain.Chain.Manager.{block_cid}
use toychain.Core.Node.{TxResult, search_txs}

-- `var b types.Block`
abbrev pub zero_block : Block
zero_block = record {
  parent = none;
  txs = [];
  receipts = [];
  height = 0;
  state_root = none;
  tick_limit = none;
  ticks_used = none;
}

module _ (p : Platform) where
  -- A block was searched: its answer, or what the later blocks give.
  abbrev pub found : Outcome (Option TxResult) → Outcome TxResult → Outcome TxResult
  found (ok (some r)) later = ok r
  found (ok none) later = later
  found (err e) later = err e
  found panic later = panic

  -- The loop over the blocks that are notified until the context is done with the error `e`.
  unfoldable pub wait_for : Error → Cid → List Block → Outcome TxResult
  unfolding search_txs
  wait_for e c [] = err e
  wait_for e c (blk ∷ blks) = found (search_txs p c blk 0 blk.txs) (wait_for e c blks)

module _ (p : Platform) (marshal : Transaction → Outcome Bytes)
    (publish : Bytes → Outcome (Unit {0})) where
  abbrev pub publish_tx : Bytes → Exec (List Bytes) (Unit {0})
  publish_tx data' sent = (publish data', data' ∷ sent)

  -- `SendNewTransaction`; the Cid of the zero block is not used, but its codec may panic.
  unfoldable pub send_new_transaction : Transaction → Exec (List Bytes) (Unit {0})
  unfolding block_cid
  send_new_transaction tx = do
    data' ← lift (wrapping Context.marshal_transaction (marshal tx))
    c ← lift (block_cid p zero_block)
    publish_tx data'

  -- `SendNewTransactionAndWait`, where `blks` are notified before the context is done with `e`.
  unfoldable pub send_new_transaction_and_wait :
      Error → List Block → Transaction → Exec (List Bytes) TxResult
  unfolding wait_for
  send_new_transaction_and_wait e blks tx = do
    data' ← lift (marshal tx)
    publish_tx data'
    c ← lift (p.wrap_tx tx)
    lift (wait_for p e c blks)
