-- ===== src/Core/Node.antt =====
-- `ToychainNode` of core/node.go and core/protocol.go: what it sends and what it takes in.
use mathlib.Core.Option
use toychain.Prelude.{
  ℕ, suc, Bool, true, false, Option, none, some, List, [], ◌∷◌, ◌=ᵇ◌, leb, get_elem?, if◌then◌else◌,
}
use toychain.Outcome.{Outcome, ok, err, panic}
use toychain.Types.Value.{Cid}
use toychain.Types.Address.{Address}
use toychain.Types.Transaction.{Transaction}
use toychain.Types.Block.{Block, Receipt, score}
use toychain.Platform.{Platform}
use toychain.Chain.Manager.{Manager, block_cid, add_to_dag}
use toychain.Chain.Process.{process_new_block, inform}

-- `HelloMessage`
pub record HelloMessage : Type 0 where
  pub head : Option Cid
  pub block_height : ℕ

-- `TxResult`
pub record TxResult : Type 0 where
  pub block : Block
  pub receipt : Receipt

-- `IsOurAddress`
unfoldable pub is_our_address : List Address → Address → Bool
is_our_address [] chk = false
is_our_address (a ∷ addresses) chk = if a =ᵇ chk then true else is_our_address addresses chk

module _ (p : Platform) where
  -- What `HelloPeer` sends.
  unfoldable pub hello : Manager p → HelloMessage
  unfolding score
  hello m = record { head = m.head_cid; block_height = score m.best_block }

  abbrev pub Handled : Type 0
  Handled = Option (Outcome (Option Block) × Manager p)

  -- The block of a hello message was fetched, or an error was logged.
  abbrev pub with_block : ℕ → Outcome Block → Manager p → Handled
  with_block fuel (ok blk) m = inform p fuel blk m
  with_block fuel (err e) m = some (ok none, m)
  with_block fuel panic m = some (panic, m)

  -- `handleHelloStream`, once the message was decoded; the result is what `Inform` sends to the miner.
  abbrev pub handle_head : ℕ → Option Cid → ℕ → Manager p → Handled
  handle_head fuel none height m = some (ok none, m)
  handle_head fuel (some c) height m =
      if leb height (score m.best_block)
      then some (ok none, m)
      else with_block fuel (p.get_block m.store (some c)) m

  unfoldable pub handle_hello : ℕ → HelloMessage → Manager p → Handled
  unfolding score
  handle_hello fuel h m = handle_head fuel h.head h.block_height m

  -- The end of `SendNewBlock`: the block is published only if it was processed without an error.
  abbrev pub then_publish :
      (Block → Outcome (Unit {0}))
      → Block
      → Outcome (Unit {0}) × Manager p
      → Outcome (Unit {0}) × Manager p
  then_publish publish b (ok u, m) = (publish b, m)
  then_publish publish b (err e, m) = (err e, m)
  then_publish publish b (panic, m) = (panic, m)

  abbrev pub after_dag :
      (Block → Outcome (Unit {0}))
      → ℕ
      → Block
      → Outcome (Unit {0}) × Manager p
      → Option (Outcome (Unit {0}) × Manager p)
  after_dag publish fuel b (ok u, m) =
      Option.map (then_publish publish b) (process_new_block p fuel b m)
  after_dag publish fuel b (err e, m) = some (err e, m)
  after_dag publish fuel b (panic, m) = some (panic, m)

  abbrev pub with_node :
      (Block → Outcome (Unit {0}))
      → ℕ
      → Block
      → Manager p
      → Outcome Cid
      → Option (Outcome (Unit {0}) × Manager p)
  with_node publish fuel b m (ok c) = after_dag publish fuel b (add_to_dag p b m)
  with_node publish fuel b m (err e) = some (err e, m)
  with_node publish fuel b m panic = some (panic, m)

  -- `SendNewBlock`; `publish` is the topic of the blocks.
  unfoldable pub send_new_block :
      (Block → Outcome (Unit {0})) → ℕ → Block → Manager p → Option (Outcome (Unit {0}) × Manager p)
  unfolding add_to_dag block_cid
  send_new_block publish fuel b m = with_node publish fuel b m (block_cid p b)

  abbrev pub receipt_at : Block → Option Receipt → Outcome (Option TxResult)
  receipt_at blk (some r) = ok (some (record { block = blk; receipt = r }))
  receipt_at blk none = panic

  abbrev pub compared : Block → ℕ → Bool → Outcome (Option TxResult) → Outcome (Option TxResult)
  compared blk i true later = receipt_at blk (get_elem? blk.receipts i)
  compared blk i false later = later

  -- The search of `SendNewTransactionAndWait` through one block; `blk.Receipts[i]` panics where there
  -- is no such receipt.
  unfoldable pub search_txs : Cid → Block → ℕ → List Transaction → Outcome (Option TxResult)
  search_txs c blk i [] = ok none
  search_txs c blk i (tx ∷ txs) =
      let later = search_txs c blk (suc i) txs in
      elim (p.wrap_tx tx) [
        | ok oc ↦ elim (p.equals (some c) (some oc)) [
          | ok same ↦ compared blk i same later
          | err e ↦ err e
          | panic ↦ panic
        ]
        | err e ↦ err e
        | panic ↦ panic
      ]
