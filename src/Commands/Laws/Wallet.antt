-- ===== src/Commands/Laws/Wallet.antt =====
-- The transaction that `WalletSendCmd` sends, what comes out of the codec of it, and what the node's own
-- pool and the contract make of that.
use toychain.Prelude.{◌≡◌, some, Bytes}
use toychain.Prelude.Int.{ℤ}
use toychain.Outcome.{Outcome, ok}
use toychain.Exec
use toychain.Exec.{Exec, ◌>>=◌, continue}
use toychain.BigInt
use toychain.Types.Value.{Value}
use toychain.Types.Decimal.{set_string}
use toychain.Types.Address.{Address, parse_address}
use toychain.Types.Transaction.{Transaction, unsigned}
use toychain.Types.Block.{Block}
use toychain.Types.Pool.{add}
use toychain.Platform.{Platform}
use toychain.Contract.Call.{transfer_name}
use toychain.Contract.Laws.Transfer.{Reads}
use toychain.Chain.Process.{inform_tx, with_pool}
use toychain.Chain.Miner.{contract_addr}
use toychain.Core.Boot.{ToychainNode}
use toychain.Commands.Wallet.{first_address}

module _ (p : Platform) where
  -- What became of the two arguments of `WalletSendCmd`: the transaction that it sends, and what a node
  -- has of it once it went through the codec, `got`. The contract reads `got` as a transfer of the
  -- amount without its sign to that address, and the sender's own node takes it into its pool.
  pub record IsWanted (value to : Bytes) (n : ToychainNode p) (tx got : Transaction) : Type 0 where
    pub amount : ℤ
    pub receiver : Address
    pub is_amount : set_string value ≡ some amount
    pub is_receiver : parse_address to ≡ ok receiver
    pub is_own : first_address n.addresses ≡ ok tx.sender
    pub is_sender : got.sender ≡ tx.sender
    pub to_contract : got.to ≡ contract_addr
    pub is_transfer : got.method ≡ transfer_name
    pub reads : Reads got.params receiver (unsigned amount)
    pub pooled :
        inform_tx p got n.manager ≡ with_pool p n.manager (add p.wrap_tx got n.manager.tx_pool)
