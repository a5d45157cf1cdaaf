-- ===== src/Types/Block.antt =====
-- `Block` and `Receipt` of types/types.go.
use toychain.Prelude.{ℕ, Bool, Option, List}
use toychain.Prelude.Int.{ℤ}
use toychain.Types.Value.{Value, Cid}
use toychain.Types.Transaction.{Transaction}

pub record Receipt : Type 0 where
  pub success : Bool
  pub result : Value

-- `none` stands for a nil pointer: the genesis block has no parent.
pub record Block : Type 0 where
  pub parent : Option Cid
  pub txs : List Transaction
  pub receipts : List Receipt
  pub height : ℕ
  pub state_root : Option Cid
  pub tick_limit : Option ℤ
  pub ticks_used : Option ℤ

-- `Block.Score`
unfoldable pub score : Block → ℕ
score b = b.height
