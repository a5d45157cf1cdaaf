-- ===== src/Chain/Manager.antt =====
-- `StateManager` of state/state_manager.go, and `acceptNewBlock`.
--
-- `BestBlock` and `StateRoot` are the values that core/node.go sets before it hands the manager to
-- anybody; the nil pointers before that are not modelled. The store is the one that the manager
-- shares with the miner and the node.
use toychain.Prelude.{Bool, false, Option, some, List, [], ◌∷◌, ◌=ᵇ◌, ◌||◌}
use toychain.Outcome.{Outcome, ok, err, panic, Context, wrapping}
use toychain.Exec.{Exec, pure, lift, ◌>>=◌, ◌>>◌}
use toychain.Types.Value.{Cid}
use toychain.Types.Transaction.{Transaction}
use toychain.Types.Block.{Block}
use toychain.Types.Pool.{Pool, clear_tx}
use toychain.Platform.{Platform}
use toychain.Contract.World.{World, load_state}

-- `(*cid.Set).Has`
abbrev pub has : Cid → List Cid → Bool
has c [] = false
has c (d ∷ known) = d =ᵇ c || has c known

module _ (p : Platform) where
  open p use {Store, Node, wrap_block, wrap_tx, dag_add}

  pub record Manager : Type 0 where
    pub store : Store
    pub best_block : Block
    pub head_cid : Option Cid
    pub state_root : Node
    pub tx_pool : Pool
    pub known_good_blocks : List Cid
    -- what `blkNotif` published, the last first
    pub notified : List Block

  -- The `contract.State` of `GetStateRoot`.
  abbrev pub state_of : Manager → World p
  state_of m = record { store = m.store; root = m.state_root }

  -- `Block.ToNode` and `Block.Cid`: a codec that fails panics.
  unfoldable pub block_cid : Block → Outcome Cid
  block_cid b = elim (wrap_block b) [ ok c ↦ ok c | err e ↦ panic | panic ↦ panic ]

  -- `s.dag.Add(ctx, blk.ToNode())`
  unfoldable pub add_to_dag : Block → Exec Manager (Unit {0})
  add_to_dag b m = let (r, st) = dag_add b m.store in (r, record m { store = st })

  abbrev pub modify : (Manager → Manager) → Exec Manager (Unit {0})
  modify f m = (ok tt, f m)

  abbrev pub in_context : {A : Type 0} → Context → Exec Manager A → Exec Manager A
  in_context c x m = let (r, m') = x m in (wrapping c r, m')

  -- The three assignments to the accounting of the best block.
  abbrev pub set_best : Block → Cid → Manager → Manager
  set_best blk c m = record m {
    known_good_blocks = c ∷ m.known_good_blocks;
    best_block = blk;
    head_cid = some c;
  }

  abbrev pub drop_tx : Cid → Manager → Manager
  drop_tx c m = record m { tx_pool = clear_tx c m.tx_pool }

  -- The loop over the transactions of the block.
  unfoldable pub clear_txs : List Transaction → Exec Manager (Unit {0})
  clear_txs [] = pure tt
  clear_txs (tx ∷ txs) = do c ← lift (wrap_tx tx); modify (drop_tx c); clear_txs txs

  -- `LoadState` on the shared store.
  unfoldable pub load_root : Option Cid → Exec Manager (World p)
  unfolding load_state
  load_root c m = (load_state p m.store c, m)

  abbrev pub publish : Block → Manager → Manager
  publish blk m = record m { notified = blk ∷ m.notified }

  -- `acceptNewBlock` from the loop over the transactions on.
  unfoldable pub settle : Block → Exec Manager (Unit {0})
  unfolding load_root
  settle blk = do
    clear_txs blk.txs
    st ← in_context Context.approved_state (load_root blk.state_root)
    modify (λ m. record m { state_root = st.root })
    modify (publish blk)

  -- `acceptNewBlock`
  unfoldable pub accept_new_block : Block → Exec Manager (Unit {0})
  unfolding block_cid add_to_dag
  accept_new_block blk = do
    node ← lift (block_cid blk)
    in_context Context.put_block (add_to_dag blk)
    modify (set_best blk node)
    settle blk
