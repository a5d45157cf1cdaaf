-- ===== src/Chain/Miner.antt =====
-- `Miner` of state/miner.go: the next block, and the event loop.
use mathlib.Core.Option
use toychain.Prelude.{ℕ, ◌+◌, ◌%◌, ◌^◌, Option, none, some, List, [], ◌∷◌, ◌++◌}
use toychain.Prelude.Int.{ℤ, pos}
use toychain.Outcome.{Outcome, ok, err, panic, Context, wrapping}
use toychain.Exec.{Exec, pure, lift, ◌>>=◌}
use toychain.Types.Value.{Cid, address, big_int}
use toychain.Types.Address.{Address}
use toychain.Types.Transaction.{Transaction}
use toychain.Types.Block.{Block, Receipt}
use toychain.Types.Pool.{get_best_txs}
use toychain.Platform.{Platform}
use toychain.Contract.World.{World, nonce_for_actor}
use toychain.Contract.Call.{transfer_name}
use toychain.Contract.Execute.{actor_exec, flush_state}
use toychain.Chain.Manager.{Manager, block_cid, state_of, load_root}

-- `ToychainContractAddr`, the bytes of "toychain".
abbrev pub contract_addr : Address
contract_addr = b't' ∷ b'o' ∷ b'y' ∷ b'c' ∷ b'h' ∷ b'a' ∷ b'i' ∷ b'n' ∷ []

-- `predictFuture` in milliseconds, where `intn n` is what the random source gives below `n`.
abbrev pub predict_future : (ℕ → ℕ) → ℕ
predict_future intn = 2000 + intn 100

abbrev pub mining_reward : ℤ
mining_reward = pos 1000000

-- `currentBlock` and `address`; the transaction pool and the store are the manager's.
pub record Miner : Type 0 where
  pub current_block : Block
  pub miner_address : Address

-- The transaction that pays the miner.
abbrev pub reward_tx : Address → ℕ → Transaction
reward_tx a nonce = record {
  to = contract_addr;
  sender = contract_addr;
  nonce = nonce;
  tick_cost = none;
  ticks = none;
  method = transfer_name;
  params = address a ∷ big_int mining_reward ∷ [];
  signature = none;
}

-- The block before its receipts and its state root.
abbrev pub next_block : Block → Cid → List Transaction → Block
next_block current parent txs = record {
  parent = some parent;
  txs = txs;
  receipts = [];
  height = (current.height + 1) % 2 ^ 64;
  state_root = none;
  tick_limit = none;
  ticks_used = none;
}

module _ (p : Platform) where
  abbrev pub in_manager : {A : Type 0} → Exec (World p) A → Exec (Manager p) A
  in_manager x m = let (r, w) = x (state_of p m) in (r, record m { store = w.store })

  abbrev pub in_context : {A : Type 0} → Context → Exec (World p) A → Exec (World p) A
  in_context c x w = let (r, w') = x w in (wrapping c r, w')

  -- The loop over the transactions, with the receipts so far.
  unfoldable pub exec_all : List Transaction → List Receipt → Exec (World p) (List Receipt)
  exec_all [] receipts = pure receipts
  exec_all (tx ∷ txs) receipts = do
    receipt ← in_context Context.mined_state (actor_exec p tx)
    exec_all txs (receipts ++ receipt ∷ [])

  -- `getNextBlock` from the execution of the block's transactions on.
  unfoldable pub fill_block : Block → Exec (World p) Block
  unfolding exec_all
  fill_block nb = do
    receipts ← exec_all nb.txs []
    state_cid ← in_context Context.flush_state (flush_state p)
    pure (record nb { receipts = receipts; state_root = some state_cid })

  -- A call on the state `w`, which shares the manager's store.
  abbrev pub on_state : {A : Type 0} → World p → Exec (World p) A → Exec (Manager p) A
  on_state w x m = let (r, w') = x w in (r, record m { store = w'.store })

-- What wakes the loop of `Run`: the context is done, a block came in, or the timer fired.
pub data Event : Type 0 where
  cancelled block_found : Event
  new_block : Block → Event

-- `order` is the order in which Go runs through the pool's map.
module _ (p : Platform) (order : List Transaction → List Transaction) where
  -- `getNextBlock`
  unfoldable pub get_next_block : Miner → Exec (Manager p) Block
  unfolding fill_block nonce_for_actor block_cid load_root get_best_txs
  get_next_block miner m =
      let txs = get_best_txs order m.tx_pool in
      (do
        nonce ← in_manager p (nonce_for_actor p contract_addr)
        parent ← lift (block_cid p miner.current_block)
        w ← load_root p miner.current_block.state_root
        on_state p w (
            fill_block p
              (next_block miner.current_block parent (reward_tx miner.miner_address nonce ∷ txs))))
        m

  -- `nb` was mined: `blockCallback` gets it, and it becomes the current block if that went well.
  abbrev pub after_callback :
      Miner → Block → Outcome (Unit {0}) × Manager p → Outcome Miner × Manager p
  after_callback miner nb (ok u, m) = (ok (record miner { current_block = nb }), m)
  after_callback miner nb (err e, m) = (ok miner, m)
  after_callback miner nb (panic, m) = (panic, m)

  -- The line that is logged when no block could be built names the current block's Cid.
  abbrev pub after_failure : Miner → Outcome Cid → Outcome Miner
  after_failure miner (ok c) = ok miner
  after_failure miner (err e) = err e
  after_failure miner panic = panic

  module _ (callback : Block → Manager p → Option (Outcome (Unit {0}) × Manager p)) where
    abbrev pub after_mining : Miner → Outcome Block × Manager p → Option (Outcome Miner × Manager p)
    after_mining miner (ok nb, m) = Option.map (after_callback miner nb) (callback nb m)
    after_mining miner (err e, m) = some (after_failure miner (block_cid p miner.current_block), m)
    after_mining miner (panic, m) = some (panic, m)

    -- One round of `Run`; it is over after `cancelled`.
    unfoldable pub run_round : Event → Miner → Manager p → Option (Outcome Miner × Manager p)
    run_round cancelled miner m = some (ok miner, m)
    run_round block_found miner m = after_mining miner (get_next_block miner m)
    run_round (new_block b) miner m = some (ok (record miner { current_block = b }), m)
