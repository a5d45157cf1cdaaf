-- ===== src/Examples/Hello.antt =====
-- A new node hears of a block of another node that it can fetch.
use toychain.Examples.Toy.{
  toy_equals, toy_find, toy_get_block, toy_load, toy_marshal, toy_unmarshal,
}
use toychain.Types.Pool.{clear_tx, get_best_txs}
use toychain.Contract.Execute.{
  actor_exec, call_contract, check_nonce, err_is_fatal, finish, flush_memory, get_contract,
  get_sender, load_contract_state, run_contract, store_call, store_sender,
}
use toychain.Chain.Validate.{
  check_block_state_change_valid, check_block_valid, execute_blocks, parent_of, validate_block,
  validate_from, walk,
}
use toychain.Chain.Process.{after_validation, inform, process_new_block}
use toychain.Chain.Manager.{accept_new_block, add_to_dag, clear_txs, load_root, settle}
use toychain.Prelude.Int.{◌+ℤ◌, ◌-ℤ◌}
use toychain.Contract.World.{
  get_actor, get_key, load_actor, load_state, nonce_for_actor, set_actor, set_key, set_root,
}
use toychain.Contract.Token.{ensure_actor, get_balance, move, read_balance, transfer, write_balance}
use toychain.Contract.Cast.{address_cast, cast_to_address, has_hex_prefix, number_cast}
use toychain.Contract.Call.{
  call, cast_arg, cast_args, make_typed_call_closure, must_typed_call_closure, typed_call,
}
use toychain.Chain.Miner.{exec_all, fill_block, get_next_block, run_round}
use toychain.BigInt.{bytes, set_bytes}
use toychain.Core.Genesis.{create_genesis_block, put_memory}
use toychain.Core.Boot.{first_manager, first_state, new_toychain_node}
use toychain.Core.Node.{send_new_block}
use toychain.Lookup.{add_address}
use toychain.Prelude.{◌<◌, ◌≡◌, refl, arith, true, false, length, some, [], ◌∷◌, ◌=ᵇ◌}
use toychain.Outcome.{ok}
use toychain.Types.Block.{Block, score}
use toychain.Contract.World.{World}
use toychain.Contract.Execute.{apply_transactions, flush_state}
use toychain.Chain.Manager.{Manager, block_cid, has}
use toychain.Chain.Validate.{fetch_block}
use toychain.Chain.Valid.{rooted, grown, stays, moves, IsValidBlock}
use toychain.Chain.Laws.Head.{IsHead}
use toychain.Chain.Laws.Taken.{HasTxCids, IsValidBlock-process_new_block}
use toychain.Core.System.{node_step}
use toychain.Core.Node.{hello, handle_hello}
use toychain.Core.Laws.Hello.{hello_syncs}
use toychain.Examples.Plain.{
  plain, plain_cid, plain-IsHamt, plain-IsCid, plain-IsBlockStore, is_plain, are_plain, plain_wrap,
  pays, to_alice, not_negative,
}
use toychain.Examples.Supply.{first, nb}

-- The node, where the other node's block is in reach.
abbrev listener : Manager plain
listener = record first.manager { store = (plain.dag_add nb first.manager.store).1 }

abbrev teller : Manager plain
teller = record listener { best_block = nb; head_cid = some (plain_cid nb) }

abbrev base : Block
base = first.manager.best_block

abbrev start : World plain
start = record { store = listener.store; root = first.manager.state_root }

abbrev ran : World plain
ran = (apply_transactions plain nb.txs start).1

abbrev last : World plain
last = (flush_state plain ran).1

runs : apply_transactions plain nb.txs start ≡ (ok tt, ran)
unfolding process_new_block validate_block get_next_block toy_find ◌=ᵇ◌ toy_unmarshal toy_load
    actor_exec get_sender check_nonce run_contract get_contract toy_equals call transfer
    address_cast number_cast bytes set_bytes accept_new_block add_to_dag block_cid clear_txs
    load_root settle exec_all fill_block after_validation check_block_state_change_valid
    check_block_valid execute_blocks fetch_block parent_of validate_from walk cast_arg cast_args
    make_typed_call_closure must_typed_call_closure typed_call cast_to_address has_hex_prefix
    apply_transactions call_contract err_is_fatal finish flush_memory flush_state
    load_contract_state store_call store_sender ensure_actor get_balance move read_balance
    write_balance get_actor get_key load_actor load_state nonce_for_actor set_actor set_key set_root
    ◌+ℤ◌ ◌-ℤ◌ score clear_tx get_best_txs toy_marshal toy_get_block create_genesis_block put_memory
    first_manager first_state new_toychain_node node_step run_round send_new_block add_address
    inform is_plain are_plain plain_wrap pays to_alice not_negative
runs = refl

flushes : flush_state plain ran ≡ (ok (3 ∷ []), last)
unfolding process_new_block validate_block get_next_block toy_find ◌=ᵇ◌ toy_unmarshal toy_load
    actor_exec get_sender check_nonce run_contract get_contract toy_equals call transfer
    address_cast number_cast bytes set_bytes accept_new_block add_to_dag block_cid clear_txs
    load_root settle exec_all fill_block after_validation check_block_state_change_valid
    check_block_valid execute_blocks fetch_block parent_of validate_from walk cast_arg cast_args
    make_typed_call_closure must_typed_call_closure typed_call cast_to_address has_hex_prefix
    apply_transactions call_contract err_is_fatal finish flush_memory flush_state
    load_contract_state store_call store_sender ensure_actor get_balance move read_balance
    write_balance get_actor get_key load_actor load_state nonce_for_actor set_actor set_key set_root
    ◌+ℤ◌ ◌-ℤ◌ score clear_tx get_best_txs toy_marshal toy_get_block create_genesis_block put_memory
    first_manager first_state new_toychain_node node_step run_round send_new_block add_address
    inform is_plain are_plain plain_wrap pays to_alice not_negative
flushes = refl

named : nb.state_root ≡ some (3 ∷ [])
unfolding process_new_block validate_block get_next_block toy_find ◌=ᵇ◌ toy_unmarshal toy_load
    actor_exec get_sender check_nonce run_contract get_contract toy_equals call transfer
    address_cast number_cast bytes set_bytes accept_new_block add_to_dag block_cid clear_txs
    load_root settle exec_all fill_block after_validation check_block_state_change_valid
    check_block_valid execute_blocks fetch_block parent_of validate_from walk cast_arg cast_args
    make_typed_call_closure must_typed_call_closure typed_call cast_to_address has_hex_prefix
    apply_transactions call_contract err_is_fatal finish flush_memory flush_state
    load_contract_state store_call store_sender ensure_actor get_balance move read_balance
    write_balance get_actor get_key load_actor load_state nonce_for_actor set_actor set_key set_root
    ◌+ℤ◌ ◌-ℤ◌ score clear_tx get_best_txs toy_marshal toy_get_block create_genesis_block put_memory
    first_manager first_state new_toychain_node node_step run_round send_new_block add_address
    inform is_plain are_plain plain_wrap pays to_alice not_negative
named = refl

cid_of_base : block_cid plain base ≡ ok (plain_cid base)
unfolding process_new_block validate_block get_next_block toy_find ◌=ᵇ◌ toy_unmarshal toy_load
    actor_exec get_sender check_nonce run_contract get_contract toy_equals call transfer
    address_cast number_cast bytes set_bytes accept_new_block add_to_dag block_cid clear_txs
    load_root settle exec_all fill_block after_validation check_block_state_change_valid
    check_block_valid execute_blocks fetch_block parent_of validate_from walk cast_arg cast_args
    make_typed_call_closure must_typed_call_closure typed_call cast_to_address has_hex_prefix
    apply_transactions call_contract err_is_fatal finish flush_memory flush_state
    load_contract_state store_call store_sender ensure_actor get_balance move read_balance
    write_balance get_actor get_key load_actor load_state nonce_for_actor set_actor set_key set_root
    ◌+ℤ◌ ◌-ℤ◌ score clear_tx get_best_txs toy_marshal toy_get_block create_genesis_block put_memory
    first_manager first_state new_toychain_node node_step run_round send_new_block add_address
    inform is_plain are_plain plain_wrap pays to_alice not_negative
cid_of_base = refl

known_base : has (plain_cid base) listener.known_good_blocks ≡ true
unfolding process_new_block validate_block get_next_block toy_find ◌=ᵇ◌ toy_unmarshal toy_load
    actor_exec get_sender check_nonce run_contract get_contract toy_equals call transfer
    address_cast number_cast bytes set_bytes accept_new_block add_to_dag block_cid clear_txs
    load_root settle exec_all fill_block after_validation check_block_state_change_valid
    check_block_valid execute_blocks fetch_block parent_of validate_from walk cast_arg cast_args
    make_typed_call_closure must_typed_call_closure typed_call cast_to_address has_hex_prefix
    apply_transactions call_contract err_is_fatal finish flush_memory flush_state
    load_contract_state store_call store_sender ensure_actor get_balance move read_balance
    write_balance get_actor get_key load_actor load_state nonce_for_actor set_actor set_key set_root
    ◌+ℤ◌ ◌-ℤ◌ score clear_tx get_best_txs toy_marshal toy_get_block create_genesis_block put_memory
    first_manager first_state new_toychain_node node_step run_round send_new_block add_address
    inform is_plain are_plain plain_wrap pays to_alice not_negative
known_base = refl

cid_of_nb : block_cid plain nb ≡ ok (plain_cid nb)
unfolding process_new_block validate_block get_next_block toy_find ◌=ᵇ◌ toy_unmarshal toy_load
    actor_exec get_sender check_nonce run_contract get_contract toy_equals call transfer
    address_cast number_cast bytes set_bytes accept_new_block add_to_dag block_cid clear_txs
    load_root settle exec_all fill_block after_validation check_block_state_change_valid
    check_block_valid execute_blocks fetch_block parent_of validate_from walk cast_arg cast_args
    make_typed_call_closure must_typed_call_closure typed_call cast_to_address has_hex_prefix
    apply_transactions call_contract err_is_fatal finish flush_memory flush_state
    load_contract_state store_call store_sender ensure_actor get_balance move read_balance
    write_balance get_actor get_key load_actor load_state nonce_for_actor set_actor set_key set_root
    ◌+ℤ◌ ◌-ℤ◌ score clear_tx get_best_txs toy_marshal toy_get_block create_genesis_block put_memory
    first_manager first_state new_toychain_node node_step run_round send_new_block add_address
    inform is_plain are_plain plain_wrap pays to_alice not_negative
cid_of_nb = refl

unknown_nb : has (plain_cid nb) listener.known_good_blocks ≡ false
unfolding process_new_block validate_block get_next_block toy_find ◌=ᵇ◌ toy_unmarshal toy_load
    actor_exec get_sender check_nonce run_contract get_contract toy_equals call transfer
    address_cast number_cast bytes set_bytes accept_new_block add_to_dag block_cid clear_txs
    load_root settle exec_all fill_block after_validation check_block_state_change_valid
    check_block_valid execute_blocks fetch_block parent_of validate_from walk cast_arg cast_args
    make_typed_call_closure must_typed_call_closure typed_call cast_to_address has_hex_prefix
    apply_transactions call_contract err_is_fatal finish flush_memory flush_state
    load_contract_state store_call store_sender ensure_actor get_balance move read_balance
    write_balance get_actor get_key load_actor load_state nonce_for_actor set_actor set_key set_root
    ◌+ℤ◌ ◌-ℤ◌ score clear_tx get_best_txs toy_marshal toy_get_block create_genesis_block put_memory
    first_manager first_state new_toychain_node node_step run_round send_new_block add_address
    inform is_plain are_plain plain_wrap pays to_alice not_negative
unknown_nb = refl

parent_fetched : fetch_block plain listener.store nb.parent ≡ ok base
unfolding process_new_block validate_block get_next_block toy_find ◌=ᵇ◌ toy_unmarshal toy_load
    actor_exec get_sender check_nonce run_contract get_contract toy_equals call transfer
    address_cast number_cast bytes set_bytes accept_new_block add_to_dag block_cid clear_txs
    load_root settle exec_all fill_block after_validation check_block_state_change_valid
    check_block_valid execute_blocks fetch_block parent_of validate_from walk cast_arg cast_args
    make_typed_call_closure must_typed_call_closure typed_call cast_to_address has_hex_prefix
    apply_transactions call_contract err_is_fatal finish flush_memory flush_state
    load_contract_state store_call store_sender ensure_actor get_balance move read_balance
    write_balance get_actor get_key load_actor load_state nonce_for_actor set_actor set_key set_root
    ◌+ℤ◌ ◌-ℤ◌ score clear_tx get_best_txs toy_marshal toy_get_block create_genesis_block put_memory
    first_manager first_state new_toychain_node node_step run_round send_new_block add_address
    inform is_plain are_plain plain_wrap pays to_alice not_negative
parent_fetched = refl

loaded : plain.load listener.store base.state_root ≡ ok first.manager.state_root
unfolding process_new_block validate_block get_next_block toy_find ◌=ᵇ◌ toy_unmarshal toy_load
    actor_exec get_sender check_nonce run_contract get_contract toy_equals call transfer
    address_cast number_cast bytes set_bytes accept_new_block add_to_dag block_cid clear_txs
    load_root settle exec_all fill_block after_validation check_block_state_change_valid
    check_block_valid execute_blocks fetch_block parent_of validate_from walk cast_arg cast_args
    make_typed_call_closure must_typed_call_closure typed_call cast_to_address has_hex_prefix
    apply_transactions call_contract err_is_fatal finish flush_memory flush_state
    load_contract_state store_call store_sender ensure_actor get_balance move read_balance
    write_balance get_actor get_key load_actor load_state nonce_for_actor set_actor set_key set_root
    ◌+ℤ◌ ◌-ℤ◌ score clear_tx get_best_txs toy_marshal toy_get_block create_genesis_block put_memory
    first_manager first_state new_toychain_node node_step run_round send_new_block add_address
    inform is_plain are_plain plain_wrap pays to_alice not_negative
loaded = refl

higher : score listener.best_block < score nb
unfolding process_new_block validate_block get_next_block toy_find ◌=ᵇ◌ toy_unmarshal toy_load
    actor_exec get_sender check_nonce run_contract get_contract toy_equals call transfer
    address_cast number_cast bytes set_bytes accept_new_block add_to_dag block_cid clear_txs
    load_root settle exec_all fill_block after_validation check_block_state_change_valid
    check_block_valid execute_blocks fetch_block parent_of validate_from walk cast_arg cast_args
    make_typed_call_closure must_typed_call_closure typed_call cast_to_address has_hex_prefix
    apply_transactions call_contract err_is_fatal finish flush_memory flush_state
    load_contract_state store_call store_sender ensure_actor get_balance move read_balance
    write_balance get_actor get_key load_actor load_state nonce_for_actor set_actor set_key set_root
    ◌+ℤ◌ ◌-ℤ◌ score clear_tx get_best_txs toy_marshal toy_get_block create_genesis_block put_memory
    first_manager first_state new_toychain_node node_step run_round send_new_block add_address
    inform is_plain are_plain plain_wrap pays to_alice not_negative
higher = omega arith

abbrev valid : IsValidBlock plain listener nb
valid = record {
  base = base;
  chain = nb ∷ [];
  start = first.manager.state_root;
  last = last;
  better = higher;
  links =
      grown (rooted (plain_cid base) cid_of_base known_base) (plain_cid nb) cid_of_nb unknown_nb
        parent_fetched;
  loads = loaded;
  replays =
      moves (record { ran = ran; runs = runs; root = 3 ∷ []; flushes = flushes; named = named })
        (stays last);
}

nb_fetched : plain.get_block listener.store (some (plain_cid nb)) ≡ ok nb
unfolding process_new_block validate_block get_next_block toy_find ◌=ᵇ◌ toy_unmarshal toy_load
    actor_exec get_sender check_nonce run_contract get_contract toy_equals call transfer
    address_cast number_cast bytes set_bytes accept_new_block add_to_dag block_cid clear_txs
    load_root settle exec_all fill_block after_validation check_block_state_change_valid
    check_block_valid execute_blocks fetch_block parent_of validate_from walk cast_arg cast_args
    make_typed_call_closure must_typed_call_closure typed_call cast_to_address has_hex_prefix
    apply_transactions call_contract err_is_fatal finish flush_memory flush_state
    load_contract_state store_call store_sender ensure_actor get_balance move read_balance
    write_balance get_actor get_key load_actor load_state nonce_for_actor set_actor set_key set_root
    ◌+ℤ◌ ◌-ℤ◌ score clear_tx get_best_txs toy_marshal toy_get_block create_genesis_block put_memory
    first_manager first_state new_toychain_node node_step run_round send_new_block add_address
    inform is_plain are_plain plain_wrap pays to_alice not_negative
nb_fetched = refl

short : length valid.chain < 2
short = omega arith

tx_cids : HasTxCids plain nb.txs
unfolding process_new_block validate_block get_next_block toy_find ◌=ᵇ◌ toy_unmarshal toy_load
    actor_exec get_sender check_nonce run_contract get_contract toy_equals call transfer
    address_cast number_cast bytes set_bytes accept_new_block add_to_dag block_cid clear_txs
    load_root settle exec_all fill_block after_validation check_block_state_change_valid
    check_block_valid execute_blocks fetch_block parent_of validate_from walk cast_arg cast_args
    make_typed_call_closure must_typed_call_closure typed_call cast_to_address has_hex_prefix
    apply_transactions call_contract err_is_fatal finish flush_memory flush_state
    load_contract_state store_call store_sender ensure_actor get_balance move read_balance
    write_balance get_actor get_key load_actor load_state nonce_for_actor set_actor set_key set_root
    ◌+ℤ◌ ◌-ℤ◌ score clear_tx get_best_txs toy_marshal toy_get_block create_genesis_block put_memory
    first_manager first_state new_toychain_node node_step run_round send_new_block add_address
    inform is_plain are_plain plain_wrap pays to_alice not_negative
tx_cids = ((_, refl), tt)

hello_syncs_example :
    (m' : Manager plain) × (handle_hello plain 2 (hello plain teller) listener
      ≡ some (ok (some nb), m'))
    × IsHead plain nb m'
hello_syncs_example =
    hello_syncs plain plain-IsHamt plain-IsCid plain-IsBlockStore 2 teller listener (plain_cid nb)
      valid refl nb_fetched short (λ st. refl) tx_cids

IsValidBlock-process_new_block_example :
    (m' : Manager plain) × (process_new_block plain 2 nb listener ≡ some (ok tt, m'))
    × IsHead plain nb m'
IsValidBlock-process_new_block_example =
    IsValidBlock-process_new_block plain plain-IsHamt plain-IsCid plain-IsBlockStore 2 nb listener
      valid short (λ st. refl) tx_cids
