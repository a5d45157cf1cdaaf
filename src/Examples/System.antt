-- ===== src/Examples/System.antt =====
-- A node that is made, takes a block from another peer, and hands it to its miner.
use toychain.Chain.Process.{inform}
use toychain.Chain.Miner.{get_next_block}
use toychain.Examples.Toy.{toy_equals, toy_find, toy_get_block, toy_unmarshal}
use toychain.Types.Pool.{clear_tx, get_best_txs}
use toychain.Contract.Execute.{
  actor_exec, apply_transactions, call_contract, check_nonce, err_is_fatal, finish, flush_memory,
  get_contract, get_sender, load_contract_state, run_contract, store_call, store_sender,
}
use toychain.Chain.Validate.{
  check_block_state_change_valid, check_block_valid, execute_blocks, fetch_block, parent_of,
  validate_block, validate_from, walk,
}
use toychain.Chain.Process.{after_validation, process_new_block}
use toychain.Chain.Manager.{accept_new_block, add_to_dag, block_cid, clear_txs, load_root, settle}
use toychain.Prelude.Int.{◌+ℤ◌, ◌-ℤ◌}
use toychain.Contract.World.{
  get_actor, get_key, load_actor, load_state, nonce_for_actor, set_key, set_root,
}
use toychain.Contract.Token.{ensure_actor, get_balance, move, read_balance, transfer, write_balance}
use toychain.Contract.Cast.{address_cast, cast_to_address, has_hex_prefix, number_cast}
use toychain.Contract.Call.{
  call, cast_arg, cast_args, make_typed_call_closure, must_typed_call_closure, typed_call,
}
use toychain.Chain.Miner.{exec_all, fill_block, get_next_block, run_round}
use toychain.BigInt.{bytes, set_bytes}
use toychain.Core.Genesis.{put_memory}
use toychain.Core.Boot.{first_manager, first_state}
use toychain.Core.Node.{send_new_block}
use toychain.Lookup.{add_address}
use toychain.Examples.Toy.{toy_load}
use toychain.Contract.Execute.{flush_state}
use toychain.Examples.Toy.{toy_marshal}
use toychain.Contract.World.{set_actor}
use toychain.Core.Genesis.{create_genesis_block}
use toychain.Prelude.{◌≤◌, ◌≡◌, refl, none, some, Option, [], ◌∷◌, ◌=ᵇ◌}
use toychain.Outcome.{Outcome, ok, err, library}
use toychain.Types.Block.{Block, score}
use toychain.Lookup.{new_lookup_engine}
use toychain.Core.Genesis.{genesis_block}
use toychain.Core.Boot.{ToychainNode, Topic, new_state_manager, new_miner, new_toychain_node}
use toychain.Core.System.{
  Services, Stepped, miner_receives, block_message, node_step, here, next, takes,
}
use toychain.Core.Laws.System.{IsSound}
use toychain.Core.Laws.Boot.{node_stays-IsSound}
use toychain.Examples.Toy.{toy}
use toychain.Examples.Contract.{alice}
use toychain.Examples.Chain.{block_of, in_order}
use toychain.Examples.Core.{empty_store}

abbrev pub subscribe : Topic → Outcome (Unit {0})
subscribe t = ok tt

abbrev pub start : Outcome (ToychainNode toy)
start = new_toychain_node toy subscribe (8 ∷ []) alice empty_store

abbrev blank : ToychainNode toy
blank = record {
  self = [];
  addresses = [];
  lookup = new_lookup_engine [];
  manager = new_state_manager toy empty_store (genesis_block []);
  miner = new_miner toy (genesis_block []) [];
  inbox = [];
}

-- A node that was not made counts as one that knows nothing.
abbrev node_of : Outcome (ToychainNode toy) → ToychainNode toy
node_of (ok n) = n
node_of _ = blank

abbrev pub first : ToychainNode toy
first = node_of start

pub is_first : start ≡ ok first
unfolding process_new_block validate_block get_next_block toy_find ◌=ᵇ◌ toy_unmarshal toy_load
    actor_exec get_sender check_nonce run_contract get_contract toy_equals call transfer
    address_cast number_cast bytes set_bytes accept_new_block add_to_dag block_cid clear_txs
    load_root settle exec_all fill_block after_validation check_block_state_change_valid
    check_block_valid execute_blocks fetch_block parent_of validate_from walk cast_arg cast_args
    make_typed_call_closure must_typed_call_closure typed_call cast_to_address has_hex_prefix
    apply_transactions call_contract err_is_fatal finish flush_memory flush_state
    load_contract_state store_call store_sender ensure_actor get_balance move read_balance
    write_balance get_actor get_key load_actor load_state nonce_for_actor set_actor set_key set_root
    ◌+ℤ◌ ◌-ℤ◌ score clear_tx get_best_txs toy_marshal toy_get_block create_genesis_block
    first_manager first_state new_toychain_node put_memory node_step run_round send_new_block
    add_address inform
is_first = refl

-- What another node with the same state mines.
abbrev nb : Block
nb = block_of (get_next_block toy in_order first.miner first.manager).0

abbrev services : Services
services = record {
  decode_block = λ data'. ok nb;
  decode_tx = λ data'. err (library 5);
  order = λ l. l;
  publish_block = λ b. ok tt;
}

abbrev result_of : Option (Stepped toy) → ToychainNode toy
result_of (some r) = r.1
result_of none = blank

abbrev second : ToychainNode toy
second = result_of (node_step toy services 2 (block_message (7 ∷ []) []) first)

is_second : node_step toy services 2 (block_message (7 ∷ []) []) first ≡ some (ok tt, second)
unfolding process_new_block validate_block get_next_block toy_find ◌=ᵇ◌ toy_unmarshal toy_load
    actor_exec get_sender check_nonce run_contract get_contract toy_equals call transfer
    address_cast number_cast bytes set_bytes accept_new_block add_to_dag block_cid clear_txs
    load_root settle exec_all fill_block after_validation check_block_state_change_valid
    check_block_valid execute_blocks fetch_block parent_of validate_from walk cast_arg cast_args
    make_typed_call_closure must_typed_call_closure typed_call cast_to_address has_hex_prefix
    apply_transactions call_contract err_is_fatal finish flush_memory flush_state
    load_contract_state store_call store_sender ensure_actor get_balance move read_balance
    write_balance get_actor get_key load_actor load_state nonce_for_actor set_actor set_key set_root
    ◌+ℤ◌ ◌-ℤ◌ score clear_tx get_best_txs toy_marshal toy_get_block create_genesis_block
    first_manager first_state new_toychain_node put_memory node_step run_round send_new_block
    add_address inform
is_second = refl

abbrev third : ToychainNode toy
third = result_of (node_step toy services 2 miner_receives second)

is_third : node_step toy services 2 miner_receives second ≡ some (ok tt, third)
unfolding process_new_block validate_block get_next_block toy_find ◌=ᵇ◌ toy_unmarshal toy_load
    actor_exec get_sender check_nonce run_contract get_contract toy_equals call transfer
    address_cast number_cast bytes set_bytes accept_new_block add_to_dag block_cid clear_txs
    load_root settle exec_all fill_block after_validation check_block_state_change_valid
    check_block_valid execute_blocks fetch_block parent_of validate_from walk cast_arg cast_args
    make_typed_call_closure must_typed_call_closure typed_call cast_to_address has_hex_prefix
    apply_transactions call_contract err_is_fatal finish flush_memory flush_state
    load_contract_state store_call store_sender ensure_actor get_balance move read_balance
    write_balance get_actor get_key load_actor load_state nonce_for_actor set_actor set_key set_root
    ◌+ℤ◌ ◌-ℤ◌ score clear_tx get_best_txs toy_marshal toy_get_block create_genesis_block
    first_manager first_state new_toychain_node put_memory node_step run_round send_new_block
    add_address inform
is_third = refl

works_on_it :
    (score third.manager.best_block ≡ 1) × (third.miner.current_block ≡ third.manager.best_block)
unfolding process_new_block validate_block get_next_block toy_find ◌=ᵇ◌ toy_unmarshal toy_load
    actor_exec get_sender check_nonce run_contract get_contract toy_equals call transfer
    address_cast number_cast bytes set_bytes accept_new_block add_to_dag block_cid clear_txs
    load_root settle exec_all fill_block after_validation check_block_state_change_valid
    check_block_valid execute_blocks fetch_block parent_of validate_from walk cast_arg cast_args
    make_typed_call_closure must_typed_call_closure typed_call cast_to_address has_hex_prefix
    apply_transactions call_contract err_is_fatal finish flush_memory flush_state
    load_contract_state store_call store_sender ensure_actor get_balance move read_balance
    write_balance get_actor get_key load_actor load_state nonce_for_actor set_actor set_key set_root
    ◌+ℤ◌ ◌-ℤ◌ score clear_tx get_best_txs toy_marshal toy_get_block create_genesis_block
    first_manager first_state new_toychain_node put_memory node_step run_round send_new_block
    add_address inform
works_on_it = (refl, refl)

node_stays-IsSound_example :
    IsSound toy third × (score first.manager.best_block ≤ score third.manager.best_block)
node_stays-IsSound_example =
    node_stays-IsSound toy services subscribe (8 ∷ []) alice empty_store is_first (
      next (next here (takes 2 (block_message (7 ∷ []) []) is_second))
        (takes 2 miner_receives is_third))
