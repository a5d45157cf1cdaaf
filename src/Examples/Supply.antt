-- ===== src/Examples/Supply.antt =====
-- A node that is made, takes a block that pays Alice from another peer, and hands it to its miner.
use toychain.Examples.Toy.{
  toy_equals, toy_find, toy_get_block, toy_load, toy_marshal, toy_unmarshal,
}
use toychain.Types.Pool.{clear_tx, get_best_txs}
use toychain.Contract.Execute.{
  actor_exec, apply_transactions, call_contract, check_nonce, err_is_fatal, finish, flush_memory,
  flush_state, get_contract, get_sender, load_contract_state, run_contract, store_call,
  store_sender,
}
use toychain.Chain.Validate.{
  check_block_state_change_valid, check_block_valid, execute_blocks, fetch_block, parent_of,
  validate_block, validate_from, walk,
}
use toychain.Chain.Process.{after_validation, inform, process_new_block}
use toychain.Chain.Manager.{accept_new_block, add_to_dag, block_cid, clear_txs, load_root, settle}
use toychain.Prelude.Int.{◌+ℤ◌, ◌-ℤ◌}
use toychain.Contract.World.{
  get_actor, get_key, load_actor, load_state, nonce_for_actor, set_actor, set_key, set_root,
}
use toychain.Contract.Token.{ensure_actor, get_balance, move, read_balance, transfer, write_balance}
use toychain.Contract.Cast.{address_cast, cast_to_address, has_hex_prefix, number_cast}
use toychain.Contract.Call.{
  call, cast_arg, cast_args, make_typed_call_closure, must_typed_call_closure, typed_call,
}
use toychain.Chain.Miner.{exec_all, fill_block, run_round}
use toychain.BigInt.{bytes, set_bytes}
use toychain.Core.Genesis.{create_genesis_block, put_memory}
use toychain.Core.Boot.{first_manager, first_state}
use toychain.Core.Node.{send_new_block}
use toychain.Lookup.{add_address}
use toychain.Prelude.{◌≡◌, refl, none, some, Option, [], ◌∷◌, ◌=ᵇ◌, true}
use toychain.Prelude.Int.{abs}
use toychain.Outcome.{Outcome, ok, err, library}
use toychain.Types.Block.{Block, score}
use toychain.Contract.Laws.Supply.{contains, IsDistinct}
use toychain.Contract.Laws.Conserve.{HasTotal}
use toychain.Lookup.{new_lookup_engine}
use toychain.Chain.Manager.{state_of}
use toychain.Chain.Miner.{contract_addr, get_next_block}
use toychain.Chain.Laws.Funded.{Backed}
use toychain.Core.Genesis.{genesis_block, initial_network_tokens}
use toychain.Core.Boot.{ToychainNode, new_state_manager, new_miner, new_toychain_node}
use toychain.Core.System.{
  Services, Stepped, miner_receives, block_message, node_step, here, next, takes,
}
use toychain.Core.Laws.Supply.{supply_stays_fixed}
use toychain.Examples.Contract.{alice}
use toychain.Examples.Chain.{in_order}
use toychain.Examples.Core.{empty_store}
use toychain.Examples.Plain.{
  plain, accounts, plain-IsHamt, plain-IsActorCodec, plain-IsCid, plain-IsBlockStore,
  plain-Ordinary, is_plain, are_plain, plain_wrap, pays, to_alice, not_negative,
}
use toychain.Examples.System.{subscribe}

abbrev start : Outcome (ToychainNode plain)
start = new_toychain_node plain subscribe (8 ∷ []) alice empty_store

abbrev blank : ToychainNode plain
blank = record {
  self = [];
  addresses = [];
  lookup = new_lookup_engine [];
  manager = new_state_manager plain empty_store (genesis_block []);
  miner = new_miner plain (genesis_block []) [];
  inbox = [];
}

abbrev node_of : Outcome (ToychainNode plain) → ToychainNode plain
node_of (ok n) = n
node_of _ = blank

abbrev pub first : ToychainNode plain
first = node_of start

is_first : start ≡ ok first
unfolding process_new_block validate_block get_next_block toy_find ◌=ᵇ◌ toy_unmarshal toy_load
    actor_exec get_sender check_nonce run_contract get_contract toy_equals call transfer
    address_cast number_cast bytes set_bytes accept_new_block add_to_dag block_cid clear_txs
    load_root settle exec_all fill_block after_validation check_block_state_change_valid
    check_block_valid execute_blocks fetch_block parent_of validate_from walk cast_arg cast_args
    make_typed_call_closure must_typed_call_closure typed_call cast_to_address has_hex_prefix
    apply_transactions call_contract err_is_fatal finish flush_memory flush_state
    load_contract_state store_call store_sender ensure_actor get_balance move read_balance
    write_balance get_actor get_key load_actor load_state nonce_for_actor set_actor set_key set_root
    ◌+ℤ◌ ◌-ℤ◌ score clear_tx get_best_txs toy_marshal toy_get_block create_genesis_block put_memory
    first_manager first_state new_toychain_node node_step run_round send_new_block add_address
    inform is_plain are_plain plain_wrap pays to_alice not_negative
is_first = refl

abbrev mined_block : Outcome Block → Block
mined_block (ok b) = b
mined_block _ = genesis_block []

-- What another node with the same state mines.
abbrev pub nb : Block
nb = mined_block (get_next_block plain in_order first.miner first.manager).0

abbrev services : Services
services = record {
  decode_block = λ data'. ok nb;
  decode_tx = λ data'. err (library 5);
  order = λ l. l;
  publish_block = λ b. ok tt;
}

abbrev result_of : Option (Stepped plain) → ToychainNode plain
result_of (some r) = r.1
result_of none = blank

abbrev second : ToychainNode plain
second = result_of (node_step plain services 2 (block_message (7 ∷ []) []) first)

is_second : node_step plain services 2 (block_message (7 ∷ []) []) first ≡ some (ok tt, second)
unfolding process_new_block validate_block get_next_block toy_find ◌=ᵇ◌ toy_unmarshal toy_load
    actor_exec get_sender check_nonce run_contract get_contract toy_equals call transfer
    address_cast number_cast bytes set_bytes accept_new_block add_to_dag block_cid clear_txs
    load_root settle exec_all fill_block after_validation check_block_state_change_valid
    check_block_valid execute_blocks fetch_block parent_of validate_from walk cast_arg cast_args
    make_typed_call_closure must_typed_call_closure typed_call cast_to_address has_hex_prefix
    apply_transactions call_contract err_is_fatal finish flush_memory flush_state
    load_contract_state store_call store_sender ensure_actor get_balance move read_balance
    write_balance get_actor get_key load_actor load_state nonce_for_actor set_actor set_key set_root
    ◌+ℤ◌ ◌-ℤ◌ score clear_tx get_best_txs toy_marshal toy_get_block create_genesis_block put_memory
    first_manager first_state new_toychain_node node_step run_round send_new_block add_address
    inform is_plain are_plain plain_wrap pays to_alice not_negative
is_second = refl

abbrev third : ToychainNode plain
third = result_of (node_step plain services 2 miner_receives second)

is_third : node_step plain services 2 miner_receives second ≡ some (ok tt, third)
unfolding process_new_block validate_block get_next_block toy_find ◌=ᵇ◌ toy_unmarshal toy_load
    actor_exec get_sender check_nonce run_contract get_contract toy_equals call transfer
    address_cast number_cast bytes set_bytes accept_new_block add_to_dag block_cid clear_txs
    load_root settle exec_all fill_block after_validation check_block_state_change_valid
    check_block_valid execute_blocks fetch_block parent_of validate_from walk cast_arg cast_args
    make_typed_call_closure must_typed_call_closure typed_call cast_to_address has_hex_prefix
    apply_transactions call_contract err_is_fatal finish flush_memory flush_state
    load_contract_state store_call store_sender ensure_actor get_balance move read_balance
    write_balance get_actor get_key load_actor load_state nonce_for_actor set_actor set_key set_root
    ◌+ℤ◌ ◌-ℤ◌ score clear_tx get_best_txs toy_marshal toy_get_block create_genesis_block put_memory
    first_manager first_state new_toychain_node node_step run_round send_new_block add_address
    inform is_plain are_plain plain_wrap pays to_alice not_negative
is_third = refl

took_it : score third.manager.best_block ≡ 1
unfolding process_new_block validate_block get_next_block toy_find ◌=ᵇ◌ toy_unmarshal toy_load
    actor_exec get_sender check_nonce run_contract get_contract toy_equals call transfer
    address_cast number_cast bytes set_bytes accept_new_block add_to_dag block_cid clear_txs
    load_root settle exec_all fill_block after_validation check_block_state_change_valid
    check_block_valid execute_blocks fetch_block parent_of validate_from walk cast_arg cast_args
    make_typed_call_closure must_typed_call_closure typed_call cast_to_address has_hex_prefix
    apply_transactions call_contract err_is_fatal finish flush_memory flush_state
    load_contract_state store_call store_sender ensure_actor get_balance move read_balance
    write_balance get_actor get_key load_actor load_state nonce_for_actor set_actor set_key set_root
    ◌+ℤ◌ ◌-ℤ◌ score clear_tx get_best_txs toy_marshal toy_get_block create_genesis_block put_memory
    first_manager first_state new_toychain_node node_step run_round send_new_block add_address
    inform is_plain are_plain plain_wrap pays to_alice not_negative
took_it = refl

distinct : IsDistinct accounts
unfolding ◌=ᵇ◌
distinct = (refl, (refl, tt))

listed : contains contract_addr accounts ≡ true
unfolding ◌=ᵇ◌
listed = refl

supply_stays_fixed_example :
    HasTotal plain
      (state_of plain third.manager)
      contract_addr
      accounts
      (abs initial_network_tokens)
    × Backed plain contract_addr accounts
        (abs initial_network_tokens)
        third.manager.store
        third.manager.known_good_blocks
supply_stays_fixed_example =
    supply_stays_fixed plain plain-IsHamt plain-IsActorCodec plain-IsCid plain-IsBlockStore services
      subscribe (8 ∷ []) alice empty_store accounts is_first
      (next (next here (takes 2 (block_message (7 ∷ []) []) is_second))
        (takes 2 miner_receives is_third))
      distinct listed (plain-Ordinary third.manager.known_good_blocks)
