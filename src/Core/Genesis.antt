-- ===== src/Core/Genesis.antt =====
-- `CreateGenesisBlock` of core/genesis.go.
use toychain.Prelude.{none, some, []}
use toychain.Prelude.Int.{ℤ, pos}
use toychain.Exec.{Exec, pure, ◌>>=◌, ◌>>◌}
use toychain.BigInt.{bytes}
use toychain.Types.Value.{Cid}
use toychain.Types.Block.{Block}
use toychain.Platform.{Platform, Actor}
use toychain.Contract.World.{World, Frame, new_state, new_contract_state, set_actor, set_key}
use toychain.Contract.Execute.{flush_state}
use toychain.Chain.Miner.{contract_addr}

abbrev pub initial_network_tokens : ℤ
initial_network_tokens = pos 2000000000

-- `new(types.Block)` with its state root.
abbrev pub genesis_block : Cid → Block
genesis_block root = record {
  parent = none;
  txs = [];
  receipts = [];
  height = 0;
  state_root = some root;
  tick_limit = none;
  ticks_used = none;
}

module _ (p : Platform) where
  open p use {Store, Node, new_node, put, contract_cid}

  abbrev pub token_actor : Cid → Actor
  token_actor memory = record { code = some contract_cid; memory = some memory; nonce = 0 }

  -- `NewState` over an empty root, and `NewContractState`.
  abbrev pub new_frame : Store → Frame p
  new_frame st = new_contract_state p (new_state p st new_node)

  -- `cs.Put(ctx, tokenState.Node())`
  unfoldable pub put_memory : Exec (Frame p) Cid
  put_memory f =
      let (r, st) = put f.memory f.world.store in
      (r, record f { world = record f.world { store = st } })

  abbrev pub in_world : {A : Type 0} → Exec (World p) A → Exec (Frame p) A
  in_world m f = let (r, w) = m f.world in (r, record f { world = w })

  unfoldable pub create_genesis_block : Exec (Frame p) Block
  unfolding set_key put_memory
  create_genesis_block = do
    set_key p contract_addr (bytes initial_network_tokens)
    memory ← put_memory
    in_world (set_actor p contract_addr (token_actor memory))
    root ← in_world (flush_state p)
    pure (genesis_block root)
