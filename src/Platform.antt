-- ===== src/Platform.antt =====
-- What the program calls and does not implement: the HAMT library (go-hamt-ipld) over its block
-- store, go-cid, the CBOR codec (go-ipld-cbor), the JSON form of an actor, and the DAG service.
pub mod Laws
use toychain.Prelude.{ℕ, Bool, Option, Bytes}
use toychain.Outcome.{Outcome}
use toychain.Types.Value.{Cid}
use toychain.Types.Transaction.{Transaction}
use toychain.Types.Block.{Block}

-- `Actor` of contract/state.go, the value that the JSON codec is called with.
pub record Actor : Type 0 where
  pub code : Option Cid
  pub memory : Option Cid
  pub nonce : ℕ

-- `Store` is what the block service can deliver, `Node` an in-memory HAMT. A call that changes
-- either of them returns the changed one, beside an error too.
pub record Platform : Type 1 where
  pub Store : Type 0
  pub Node : Type 0
  -- `hamt.NewNode`, `(*Node).Find`, `Set`, `Flush` and `Copy`
  pub new_node : Node
  pub find : Store → Node → Bytes → Outcome Bytes
  pub set : Store → Bytes → Bytes → Node → Outcome (Unit {0}) × Node
  pub flush : Node → Store → Outcome (Unit {0}) × Node × Store
  pub copy : Node → Node
  -- `(*CborIpldStore).Put` of a node, `hamt.LoadNode`, `(*CborIpldStore).Get` of a block
  pub put : Node → Store → Outcome Cid × Store
  pub load : Store → Option Cid → Outcome Node
  pub get_block : Store → Option Cid → Outcome Block
  -- `json.Marshal` and `json.Unmarshal` of an actor
  pub marshal_actor : Actor → Outcome Bytes
  pub unmarshal_actor : Bytes → Outcome Actor
  -- `(*Cid).Equals`; `identCid("toychain")`
  pub equals : Option Cid → Option Cid → Outcome Bool
  pub contract_cid : Cid
  -- the Cid of `cbor.WrapObject` of a block and of a transaction
  pub wrap_block : Block → Outcome Cid
  pub wrap_tx : Transaction → Outcome Cid
  -- `ipld.DAGService.Add` of a block's node
  pub dag_add : Block → Store → Outcome (Unit {0}) × Store
