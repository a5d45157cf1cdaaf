-- ===== src/Examples/Commands.antt =====
-- The commands on a node where Alice has an account, and a daemon on files that a function tells.
use toychain.Types.Hex.{decode}
use toychain.Examples.Toy.{
  toy_equals, toy_find, toy_get_block, toy_load, toy_marshal, toy_unmarshal,
}
use toychain.Types.Pool.{clear_tx, get_best_txs}
use toychain.Contract.Execute.{
  apply_transactions, call_contract, check_nonce, err_is_fatal, finish, flush_memory, flush_state,
  get_contract, get_sender, load_contract_state, run_contract, store_call, store_sender,
}
use toychain.Chain.Validate.{
  check_block_state_change_valid, check_block_valid, execute_blocks, fetch_block, parent_of,
  validate_block, validate_from, walk,
}
use toychain.Chain.Process.{after_validation, process_new_block}
use toychain.Chain.Manager.{accept_new_block, add_to_dag, block_cid, clear_txs, load_root, settle}
use toychain.Prelude.Int.{◌-ℤ◌}
use toychain.Contract.World.{
  get_actor, get_key, load_actor, load_state, nonce_for_actor, set_actor, set_key, set_root,
}
use toychain.Contract.Token.{ensure_actor, get_balance, move, read_balance, transfer, write_balance}
use toychain.Contract.Cast.{cast_to_address, has_hex_prefix}
use toychain.Contract.Call.{
  call, cast_arg, cast_args, make_typed_call_closure, must_typed_call_closure, typed_call,
}
use toychain.Chain.Miner.{exec_all, fill_block, get_next_block}
use toychain.BigInt.{bytes, set_bytes}
use toychain.Types.Block.{score}
use toychain.Core.Genesis.{create_genesis_block, put_memory}
use mathlib.Core.Path.{subst}
use toychain.Types.Codec
use toychain.Types.Transaction.{to_fields, received}
use toychain.Examples.Wire.{wire, wire-IsWire, cbor, decode-dump}
use toychain.Prelude.{sym, ◌∙◌, ◌≡◌, refl, ◌=ᵇ◌, true, false, some, [], ◌∷◌, Bytes}
use toychain.Prelude.Int.{pos, ◌+ℤ◌}
use toychain.Outcome.{Outcome, ok, err, library, ok_injective}
use toychain.Contract.Call.{transfer_name}
use toychain.Contract.Laws.Actors.{actor_at}
use toychain.Types.Value.{Value, address, big_int}
use toychain.Types.Address.{parse_address}
use toychain.Types.Transaction.{Transaction}
use toychain.Types.Block.{Block}
use toychain.Contract.World.{World}
use toychain.Contract.Cast.{address_cast, number_cast}
use toychain.Contract.Execute.{actor_exec, succeeded}
use toychain.Contract.Laws.Transfer.{Reads}
use toychain.Contract.Laws.Ledger.{IsLedger, held}
use toychain.Chain.Miner.{contract_addr}
use toychain.Lookup.{LookupMessage, new_lookup_engine, handle_message}
use toychain.Core.Genesis.{genesis_block}
use toychain.Core.Boot.{ToychainNode, new_state_manager, new_miner}
use toychain.Core.Node.{TxResult, is_our_address}
use toychain.Core.System.{Services, node_step, tx_message}
use toychain.Core.Laws.Spread.{IsOffered, send_new_transaction-IsOffered}
use toychain.Core.Send.{send_new_transaction, send_new_transaction_and_wait}
use toychain.Core.Laws.Send.{IsAnswer, send_and_wait-IsAnswer}
use toychain.Commands.Addrs.{addrs_new}
use toychain.Commands.Wallet.{sent_tx, wallet_get_balance}
use toychain.Commands.Laws.Balance.{wallet_sees_transfer}
use toychain.Commands.Laws.Addrs.{new_address_unanswered}
use toychain.Examples.Toy.{toy, ToyNode, toy-IsHamt, toy-IsActorCodec, toy-IsCid}
use toychain.Examples.Contract.{user, alice, bob, ledger, token_actor_at}

-- Alice, Bob and the contract.
abbrev actors : ToyNode
actors =
    (alice, 3 ∷ 0 ∷ 0 ∷ 0 ∷ 0 ∷ [])
    ∷ (bob, 0 ∷ 0 ∷ 0 ∷ 0 ∷ 0 ∷ [])
    ∷ (contract_addr, 0 ∷ 1 ∷ 7 ∷ 1 ∷ 0 ∷ [])
    ∷ []

abbrev world : World toy
world = record { store = record { nodes = ledger ∷ []; blocks = [] }; root = actors }

abbrev node_on : World toy → ToychainNode toy
node_on w = record {
  self = 8 ∷ [];
  addresses = alice ∷ [];
  lookup = new_lookup_engine (8 ∷ []);
  manager = record (new_state_manager toy w.store (genesis_block (1 ∷ []))) { state_root = w.root };
  miner = new_miner toy (genesis_block (1 ∷ [])) alice;
  inbox = [];
}

-- The text of Bob's address, and the amount 30.
abbrev to_bob : Bytes
to_bob = b'0' ∷ b'x' ∷ b'0' ∷ b'2' ∷ []

abbrev thirty : Bytes
thirty = b'3' ∷ b'0' ∷ []

abbrev tx : Transaction
tx = sent_tx alice bob (pos 30) 3

reads : Reads tx.params bob (pos 30)
unfolding address_cast number_cast
reads = record {
  to_arg = address bob;
  amount_arg = big_int (pos 30);
  two = refl;
  is_address = refl;
  is_number = refl;
}

token_there : actor_at toy world contract_addr ≡ ok (token_actor_at 0)
unfolding actor_at get_actor toy_find ◌=ᵇ◌ toy_unmarshal
token_there = refl

is_ledger : IsLedger toy world contract_addr ledger
unfolding toy_load
is_ledger = record { account = token_actor_at 0; there = token_there; loaded = refl }

abbrev after : World toy
after = (actor_exec toy tx world).1

has_run : (actor_exec toy tx world).0 ≡ ok (succeeded Value.nil)
unfolding process_new_block validate_block get_next_block toy_find ◌=ᵇ◌ toy_unmarshal toy_load
    actor_exec get_sender check_nonce run_contract get_contract toy_equals call transfer
    address_cast number_cast bytes set_bytes accept_new_block add_to_dag block_cid clear_txs
    load_root settle exec_all fill_block after_validation check_block_state_change_valid
    check_block_valid execute_blocks fetch_block parent_of validate_from walk cast_arg cast_args
    make_typed_call_closure must_typed_call_closure typed_call cast_to_address has_hex_prefix
    apply_transactions call_contract err_is_fatal finish flush_memory flush_state
    load_contract_state store_call store_sender ensure_actor get_balance move read_balance
    write_balance get_actor get_key load_actor load_state nonce_for_actor set_actor set_key set_root
    ◌+ℤ◌ ◌-ℤ◌ score clear_tx get_best_txs toy_marshal toy_get_block create_genesis_block put_memory
has_run = refl

parsed_bob : parse_address to_bob ≡ ok bob
unfolding process_new_block validate_block get_next_block toy_find ◌=ᵇ◌ toy_unmarshal toy_load
    actor_exec get_sender check_nonce run_contract get_contract toy_equals call transfer
    address_cast number_cast bytes set_bytes accept_new_block add_to_dag block_cid clear_txs
    load_root settle exec_all fill_block after_validation check_block_state_change_valid
    check_block_valid execute_blocks fetch_block parent_of validate_from walk cast_arg cast_args
    make_typed_call_closure must_typed_call_closure typed_call cast_to_address has_hex_prefix
    apply_transactions call_contract err_is_fatal finish flush_memory flush_state
    load_contract_state store_call store_sender ensure_actor get_balance move read_balance
    write_balance get_actor get_key load_actor load_state nonce_for_actor set_actor set_key set_root
    ◌+ℤ◌ ◌-ℤ◌ score clear_tx get_best_txs toy_marshal toy_get_block create_genesis_block put_memory
    parse_address decode
parsed_bob = refl

apart : (alice =ᵇ bob) ≡ false
unfolding ◌=ᵇ◌
apart = refl

is_transfer : (tx.method =ᵇ transfer_name) ≡ true
unfolding ◌=ᵇ◌
is_transfer = refl

wallet_sees_transfer_example :
    wallet_get_balance toy (some to_bob) (node_on after)
    ≡ ok (big_int (held toy world.store ledger bob +ℤ pos 30))
wallet_sees_transfer_example =
    wallet_sees_transfer toy toy-IsHamt toy-IsActorCodec tx bob 30 (node_on world) (node_on after)
      ledger to_bob refl is_transfer reads apart is_ledger has_run refl refl refl parsed_bob

abbrev marshal : Transaction → Outcome Bytes
marshal tx = ok (tx.nonce ∷ tx.sender)

abbrev accept : Bytes → Outcome (Unit {0})
accept data' = ok tt

-- Carol's address, which has two bytes, and its text.
abbrev carol : Bytes
carol = 2 ∷ 3 ∷ []

abbrev to_carol : Bytes
to_carol = b'0' ∷ b'x' ∷ b'0' ∷ b'2' ∷ b'0' ∷ b'3' ∷ []

parsed_carol : parse_address to_carol ≡ ok carol
unfolding parse_address decode
parsed_carol = refl

is_plain : (a : Bytes) → parse_address to_carol ≡ ok a → has_hex_prefix a ≡ ok false
unfolding has_hex_prefix
is_plain a h = subst (λ b. has_hex_prefix b ≡ ok false) (ok_injective (sym parsed_carol ∙ h)) refl

abbrev services : Services
services = record {
  decode_block = λ data'. err (library 5);
  decode_tx = Codec.unmarshal cbor;
  order = λ l. l;
  publish_block = λ b. ok tt;
}

abbrev to_carol_tx : Transaction
to_carol_tx = sent_tx alice carol (pos 30) 3

is_published : (send_new_transaction toy (Codec.marshal cbor) accept to_carol_tx []).0 ≡ ok tt
unfolding send_new_transaction Codec.marshal to_fields bytes block_cid
is_published = refl

alice_there : actor_at toy world alice ≡ ok (user 3)
unfolding actor_at get_actor toy_find ◌=ᵇ◌ toy_unmarshal
alice_there = refl

send_new_transaction-IsOffered_example :
    (data' : Bytes) × (n' : ToychainNode toy) × ((send_new_transaction toy
        (Codec.marshal cbor)
        accept
        to_carol_tx
        []).1
      ≡ data' ∷ [])
    × (node_step toy services 1 (tx_message data') (node_on world) ≡ some (ok tt, n'))
    × IsOffered toy (received wire to_carol_tx) (3 ∷ alice) (user 3) (node_on world) n'
send_new_transaction-IsOffered_example =
    send_new_transaction-IsOffered toy cbor wire wire-IsWire decode-dump services (λ b. refl) accept
      to_carol_tx [] is_published 1 (node_on world) (user 3) (3 ∷ alice) alice_there refl

-- A block with the transaction and its receipt.
abbrev notified : Block
notified = record (genesis_block (1 ∷ [])) { txs = tx ∷ []; receipts = succeeded Value.nil ∷ [] }

abbrev told : TxResult
told = record { block = notified; receipt = succeeded Value.nil }

has_answer :
    (send_new_transaction_and_wait toy marshal accept
      (library 6)
      (genesis_block [] ∷ notified ∷ [])
      tx
      []).0
    ≡ ok told
unfolding send_new_transaction_and_wait toy_equals ◌=ᵇ◌
has_answer = refl

send_and_wait-IsAnswer_example :
    (c : Bytes) × (data' : Bytes) × (toy.wrap_tx tx ≡ ok c)
    × IsAnswer toy c (genesis_block [] ∷ notified ∷ []) told
    × (marshal tx ≡ ok data')
    × ((send_new_transaction_and_wait toy marshal accept
          (library 6)
          (genesis_block [] ∷ notified ∷ [])
          tx
          []).1
        ≡ data' ∷ [])
send_and_wait-IsAnswer_example =
    send_and_wait-IsAnswer toy toy-IsCid marshal accept (library 6)
      (genesis_block [] ∷ notified ∷ []) tx [] has_answer

abbrev request : LookupMessage
request = record { address = bob; peer = []; request = true }

from_other : ((7 ∷ []) =ᵇ (8 ∷ [])) ≡ false
unfolding ◌=ᵇ◌
from_other = refl

new_address_unanswered_example :
    (is_our_address (addrs_new toy bob (node_on world)).addresses bob ≡ true)
    × (handle_message
          (λ q. q)
          (λ b. some b)
          (record { from = 7 ∷ []; parsed = some request })
          (addrs_new toy bob (node_on world)).lookup
        ≡ some (new_lookup_engine (8 ∷ [])))
new_address_unanswered_example =
    new_address_unanswered toy (λ q. q) (λ b. some b) bob (node_on world) (7 ∷ []) request refl refl
      from_other refl refl
