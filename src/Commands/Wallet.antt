-- ===== src/Commands/Wallet.antt =====
-- `WalletGetBalanceCmd` and `WalletSendCmd` of commands/all_commands_fixme.go, on the daemon's node.
use toychain.Prelude.{ℕ, Option, none, some, List, [], ◌∷◌, Bytes}
use toychain.Prelude.Int.{ℤ}
use toychain.Outcome
use toychain.Outcome.{Outcome, ok, err, panic, Message, message}
use toychain.Exec.{Exec, lift, ◌>>=◌}
use toychain.Types.Value.{Value, address, big_int}
use toychain.Types.Decimal.{set_string}
use toychain.Types.Address.{Address, parse_address}
use toychain.Types.Transaction.{Transaction}
use toychain.Platform.{Platform}
use toychain.Contract.World.{World, get_actor, nonce_for_actor}
use toychain.Contract.Call.{call, get_balance_name, transfer_name}
use toychain.Contract.Execute.{get_contract, load_contract_state}
use toychain.Chain.Manager.{state_of}
use toychain.Chain.Miner.{contract_addr}
use toychain.Core.Boot.{ToychainNode}
use toychain.Core.Send.{send_new_transaction}

-- `tch.Addresses[0]`
abbrev pub first_address : List Address → Outcome Address
first_address [] = panic
first_address (a ∷ rest) = ok a

-- `SetString` on the amount.
abbrev pub parsed_amount : Option ℤ → Outcome ℤ
parsed_amount (some n) = ok n
parsed_amount none = err (message Message.amount_not_parsed)

-- The account that is asked for: the node's first address, unless an argument names another one.
abbrev pub account_of : Option Bytes → Address → Outcome Address
account_of none own = ok own
account_of (some text) own = parse_address text

-- The transaction that `WalletSendCmd` builds.
abbrev pub sent_tx : Address → Address → ℤ → ℕ → Transaction
sent_tx own to amount nonce = record {
  to = contract_addr;
  sender = own;
  nonce = nonce;
  tick_cost = none;
  ticks = none;
  method = transfer_name;
  params = address to ∷ big_int amount ∷ [];
  signature = none;
}

module _ (p : Platform) where
  -- `getBalance` on the state `w`. The call context has neither a sender nor a state of its own, and
  -- the method looks at the contract's memory only.
  unfoldable pub query_balance : Address → World p → Outcome Value
  unfolding get_actor get_contract load_contract_state
  query_balance a w = Outcome.◌>>=◌ (get_actor p contract_addr w).0 λ act.
      Outcome.◌>>=◌ (get_contract p act.code) λ _.
        Outcome.◌>>=◌ (load_contract_state p act.memory w).0 λ memory.
          (call p [] get_balance_name (address a ∷ []) (record { world = w; memory = memory })).0

  -- `WalletGetBalanceCmd`
  unfoldable pub wallet_get_balance : Option Bytes → ToychainNode p → Outcome Value
  unfolding query_balance
  wallet_get_balance account n =
      Outcome.◌>>=◌ (first_address n.addresses)
        λ own. Outcome.◌>>=◌ (account_of account own) λ a. query_balance a (state_of p n.manager)

  -- `WalletSendCmd` up to the transaction.
  unfoldable pub wallet_tx : Bytes → Bytes → ToychainNode p → Outcome Transaction
  unfolding nonce_for_actor
  wallet_tx value to n = Outcome.◌>>=◌ (parsed_amount (set_string value)) λ amount.
      Outcome.◌>>=◌ (parse_address to) λ a. Outcome.◌>>=◌ (first_address n.addresses) λ own.
        Outcome.◌>>=◌ (nonce_for_actor p own (state_of p n.manager)).0
          λ nonce. ok (sent_tx own a amount nonce)

  module _ (marshal : Transaction → Outcome Bytes) (publish : Bytes → Outcome (Unit {0})) where
    -- The error of `SendNewTransaction` is not looked at; a panic ends the command.
    abbrev pub unreported : Outcome (Unit {0}) × List Bytes → Outcome (Unit {0}) × List Bytes
    unreported (ok u, sent) = (ok u, sent)
    unreported (err e, sent) = (ok tt, sent)
    unreported (panic, sent) = (panic, sent)

    -- `WalletSendCmd`
    unfoldable pub wallet_send : Bytes → Bytes → ToychainNode p → Exec (List Bytes) (Unit {0})
    unfolding wallet_tx send_new_transaction
    wallet_send value to n = do
      tx ← lift (wallet_tx value to n)
      (λ sent. unreported (send_new_transaction p marshal publish tx sent))
