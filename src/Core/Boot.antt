-- ===== src/Core/Boot.antt =====
-- `ToychainNode` of core/node.go and its construction, `NewToychainNode`.
--
-- The random bytes of the mining address, and what the pubsub service says to a subscription, are
-- arguments. `inbox` holds the blocks whose senders wait for the miner to take them from `newBlocks`,
-- the longest waiting first.
use toychain.Prelude.{Option, none, some, List, [], ◌∷◌}
use toychain.Outcome
use toychain.Outcome.{Outcome, ok, err, panic}
use toychain.Exec.{Exec, lift, ◌>>=◌, ◌>>◌}
use toychain.Types.Address.{Address}
use toychain.Types.Block.{Block}
use toychain.Types.Pool.{empty_pool}
use toychain.Platform.{Platform}
use toychain.Chain.Manager.{Manager, block_cid, add_to_dag, load_root}
use toychain.Chain.Miner.{Miner}
use toychain.Lookup.{PeerId, LookupEngine, new_lookup_engine, add_address}
use toychain.Core.Genesis.{create_genesis_block, new_frame}

-- `TchLookupTopic`, `TxsTopic` and `BlocksTopic`.
pub data Topic : Type 0 where
  lookup_topic txs_topic blocks_topic : Topic

module _ (p : Platform) where
  pub record ToychainNode : Type 0 where
    pub self : PeerId
    pub addresses : List Address
    pub lookup : LookupEngine
    pub manager : Manager p
    pub miner : Miner
    pub inbox : List Block

  -- `NewStateManager` and `SetBestBlock`, with the state root of an empty state: the source has nil
  -- there until `first_state`.
  abbrev pub new_state_manager : p.Store → Block → Manager p
  new_state_manager st genesis = record {
    store = st;
    best_block = genesis;
    head_cid = none;
    state_root = p.new_node;
    tx_pool = empty_pool;
    known_good_blocks = [];
    notified = [];
  }

  -- `NewMiner`
  abbrev pub new_miner : Block → Address → Miner
  new_miner best coinbase = record { current_block = best; miner_address = coinbase }

  -- From `DAG.Add` of the genesis block to the assignment of `StateRoot`.
  unfoldable pub first_state : Block → Exec (Manager p) (Unit {0})
  unfolding block_cid add_to_dag load_root
  first_state genesis = do
    c ← lift (block_cid p genesis)
    add_to_dag p genesis
    (λ m. (ok tt, record m { known_good_blocks = c ∷ m.known_good_blocks }))
    st ← load_root p genesis.state_root
    (λ m. (ok tt, record m { state_root = st.root }))

  abbrev engine_of : Option LookupEngine → LookupEngine → LookupEngine
  engine_of (some le) old = le
  engine_of none old = old

  abbrev pub with_manager : Block → Outcome (Unit {0}) × Manager p → Outcome (Block × Manager p)
  with_manager genesis (ok _, m) = ok (genesis, m)
  with_manager genesis (err e, m) = err e
  with_manager genesis (panic, m) = panic

  abbrev pub on_genesis : p.Store → Outcome Block → Outcome (Block × Manager p)
  on_genesis st (ok genesis) =
      with_manager genesis (first_state genesis (new_state_manager st genesis))
  on_genesis st (err e) = err e
  on_genesis st panic = panic

  -- The genesis block, and the manager on it.
  unfoldable pub first_manager : p.Store → Outcome (Block × Manager p)
  unfolding first_state
  first_manager st =
      let (made, f) = create_genesis_block p (new_frame p st) in on_genesis f.world.store made

  -- `NewToychainNode`, for the peer `self` and the fresh address `base`.
  unfoldable pub new_toychain_node :
      (Topic → Outcome (Unit {0})) → PeerId → Address → p.Store → Outcome ToychainNode
  unfolding first_manager
  new_toychain_node subscribe self base st = Outcome.◌>>=◌ (subscribe lookup_topic) λ _.
      Outcome.◌>>=◌ (first_manager st) λ r. Outcome.◌>>=◌ (subscribe txs_topic) λ _.
        Outcome.◌>>=◌ (subscribe blocks_topic) λ _. ok (record {
          self = self;
          addresses = base ∷ [];
          lookup = engine_of (add_address base (new_lookup_engine self)) (new_lookup_engine self);
          manager = r.1;
          miner = new_miner r.0 base;
          inbox = [];
        })
