-- ===== src/Examples/Valid.antt =====
-- The mined block of the example chain is a valid block, and is accepted; a block on the last height
-- is not.
use toychain.Examples.Toy.{
  toy_equals, toy_find, toy_get_block, toy_load, toy_marshal, toy_unmarshal,
}
use toychain.Types.Pool.{clear_tx, get_best_txs}
use toychain.Contract.Execute.{
  actor_exec, call_contract, check_nonce, err_is_fatal, finish, flush_memory, get_contract,
  get_sender, load_contract_state, run_contract, store_call, store_sender,
}
use toychain.Chain.Validate.{
  check_block_state_change_valid, check_block_valid, execute_blocks, parent_of, validate_from, walk,
}
use toychain.Chain.Process.{after_validation}
use toychain.Chain.Manager.{accept_new_block, add_to_dag, clear_txs, load_root, settle}
use toychain.Prelude.Int.{◌+ℤ◌, ◌-ℤ◌}
use toychain.Contract.World.{
  get_actor, get_key, load_actor, load_state, nonce_for_actor, set_actor, set_key, set_root,
}
use toychain.Contract.Token.{ensure_actor, get_balance, move, read_balance, transfer, write_balance}
use toychain.Contract.Cast.{address_cast, cast_to_address, has_hex_prefix, number_cast}
use toychain.Contract.Call.{
  call, cast_arg, cast_args, make_typed_call_closure, must_typed_call_closure, typed_call,
}
use toychain.Chain.Miner.{fill_block}
use toychain.BigInt.{bytes, set_bytes}
use toychain.Core.Genesis.{create_genesis_block, put_memory}
use toychain.Prelude.{
  ℕ, ◌-◌, ◌^◌, ◌<◌, ◌≡◌, refl, ◌=ᵇ◌, false, none, some, Option, [], ◌∷◌, arith, length,
}
use toychain.Prelude.Int.{pos}
use toychain.Outcome.{Outcome, ok, err, Context, Message, message, wrap}
use toychain.Types.Block.{Block, score}
use toychain.Contract.World.{World}
use toychain.Contract.Execute.{apply_transactions, flush_state}
use toychain.Chain.Manager.{Manager, block_cid, has}
use toychain.Chain.Validate.{fetch_block, validate_block}
use toychain.Chain.Process.{process_new_block}
use toychain.Chain.Miner.{Miner, get_next_block, exec_all}
use toychain.Chain.Valid.{rooted, grown, stays, moves, IsValidBlock}
use toychain.Chain.Laws.Refines.{validate_block-IsValidBlock, IsValidBlock-validate_block}
use toychain.Chain.Laws.Batch.{Agree, exec_all_agrees}
use toychain.Chain.Laws.Height.{last_height_refused}
use toychain.Examples.Toy.{toy, toy-IsCid, toy_cid}
use toychain.Examples.Contract.{world, tx}
use toychain.Examples.Chain.{
  first_block, manager, miner, nb, in_order, block_of, cid_of_first, known_first,
}

abbrev manager_of : Option (Outcome (Unit {0}) × Manager toy) → Manager toy
manager_of (some r) = r.1
manager_of none = manager []

abbrev validated : Manager toy
validated = manager_of (validate_block toy 2 nb (manager []))

is_validated : validate_block toy 2 nb (manager []) ≡ some (ok tt, validated)
unfolding process_new_block validate_block get_next_block toy_find ◌=ᵇ◌ toy_unmarshal toy_load
    actor_exec get_sender check_nonce run_contract get_contract toy_equals call transfer
    address_cast number_cast bytes set_bytes accept_new_block add_to_dag block_cid clear_txs
    load_root settle exec_all fill_block after_validation check_block_state_change_valid
    check_block_valid execute_blocks fetch_block parent_of validate_from walk cast_arg cast_args
    make_typed_call_closure must_typed_call_closure typed_call cast_to_address has_hex_prefix
    apply_transactions call_contract err_is_fatal finish flush_memory flush_state
    load_contract_state store_call store_sender ensure_actor get_balance move read_balance
    write_balance get_actor get_key load_actor load_state nonce_for_actor set_actor set_key set_root
    ◌+ℤ◌ ◌-ℤ◌ score clear_tx get_best_txs toy_marshal toy_get_block create_genesis_block put_memory
is_validated = refl

validate_block-IsValidBlock_example : IsValidBlock toy (manager []) nb
validate_block-IsValidBlock_example =
    validate_block-IsValidBlock toy toy-IsCid 2 nb (manager []) is_validated

abbrev start : World toy
start = record { store = (manager []).store; root = (manager []).state_root }

abbrev ran : World toy
ran = (apply_transactions toy nb.txs start).1

abbrev last : World toy
last = (flush_state toy ran).1

runs : apply_transactions toy nb.txs start ≡ (ok tt, ran)
unfolding process_new_block validate_block get_next_block toy_find ◌=ᵇ◌ toy_unmarshal toy_load
    actor_exec get_sender check_nonce run_contract get_contract toy_equals call transfer
    address_cast number_cast bytes set_bytes accept_new_block add_to_dag block_cid clear_txs
    load_root settle exec_all fill_block after_validation check_block_state_change_valid
    check_block_valid execute_blocks fetch_block parent_of validate_from walk cast_arg cast_args
    make_typed_call_closure must_typed_call_closure typed_call cast_to_address has_hex_prefix
    apply_transactions call_contract err_is_fatal finish flush_memory flush_state
    load_contract_state store_call store_sender ensure_actor get_balance move read_balance
    write_balance get_actor get_key load_actor load_state nonce_for_actor set_actor set_key set_root
    ◌+ℤ◌ ◌-ℤ◌ score clear_tx get_best_txs toy_marshal toy_get_block create_genesis_block put_memory
runs = refl

flushes : flush_state toy ran ≡ (ok (3 ∷ []), last)
unfolding process_new_block validate_block get_next_block toy_find ◌=ᵇ◌ toy_unmarshal toy_load
    actor_exec get_sender check_nonce run_contract get_contract toy_equals call transfer
    address_cast number_cast bytes set_bytes accept_new_block add_to_dag block_cid clear_txs
    load_root settle exec_all fill_block after_validation check_block_state_change_valid
    check_block_valid execute_blocks fetch_block parent_of validate_from walk cast_arg cast_args
    make_typed_call_closure must_typed_call_closure typed_call cast_to_address has_hex_prefix
    apply_transactions call_contract err_is_fatal finish flush_memory flush_state
    load_contract_state store_call store_sender ensure_actor get_balance move read_balance
    write_balance get_actor get_key load_actor load_state nonce_for_actor set_actor set_key set_root
    ◌+ℤ◌ ◌-ℤ◌ score clear_tx get_best_txs toy_marshal toy_get_block create_genesis_block put_memory
flushes = refl

named : nb.state_root ≡ some (3 ∷ [])
unfolding process_new_block validate_block get_next_block toy_find ◌=ᵇ◌ toy_unmarshal toy_load
    actor_exec get_sender check_nonce run_contract get_contract toy_equals call transfer
    address_cast number_cast bytes set_bytes accept_new_block add_to_dag block_cid clear_txs
    load_root settle exec_all fill_block after_validation check_block_state_change_valid
    check_block_valid execute_blocks fetch_block parent_of validate_from walk cast_arg cast_args
    make_typed_call_closure must_typed_call_closure typed_call cast_to_address has_hex_prefix
    apply_transactions call_contract err_is_fatal finish flush_memory flush_state
    load_contract_state store_call store_sender ensure_actor get_balance move read_balance
    write_balance get_actor get_key load_actor load_state nonce_for_actor set_actor set_key set_root
    ◌+ℤ◌ ◌-ℤ◌ score clear_tx get_best_txs toy_marshal toy_get_block create_genesis_block put_memory
named = refl

cid_of_nb : block_cid toy nb ≡ ok (toy_cid nb)
unfolding process_new_block validate_block get_next_block toy_find ◌=ᵇ◌ toy_unmarshal toy_load
    actor_exec get_sender check_nonce run_contract get_contract toy_equals call transfer
    address_cast number_cast bytes set_bytes accept_new_block add_to_dag block_cid clear_txs
    load_root settle exec_all fill_block after_validation check_block_state_change_valid
    check_block_valid execute_blocks fetch_block parent_of validate_from walk cast_arg cast_args
    make_typed_call_closure must_typed_call_closure typed_call cast_to_address has_hex_prefix
    apply_transactions call_contract err_is_fatal finish flush_memory flush_state
    load_contract_state store_call store_sender ensure_actor get_balance move read_balance
    write_balance get_actor get_key load_actor load_state nonce_for_actor set_actor set_key set_root
    ◌+ℤ◌ ◌-ℤ◌ score clear_tx get_best_txs toy_marshal toy_get_block create_genesis_block put_memory
cid_of_nb = refl

unknown_nb : has (toy_cid nb) (manager []).known_good_blocks ≡ false
unfolding process_new_block validate_block get_next_block toy_find ◌=ᵇ◌ toy_unmarshal toy_load
    actor_exec get_sender check_nonce run_contract get_contract toy_equals call transfer
    address_cast number_cast bytes set_bytes accept_new_block add_to_dag block_cid clear_txs
    load_root settle exec_all fill_block after_validation check_block_state_change_valid
    check_block_valid execute_blocks fetch_block parent_of validate_from walk cast_arg cast_args
    make_typed_call_closure must_typed_call_closure typed_call cast_to_address has_hex_prefix
    apply_transactions call_contract err_is_fatal finish flush_memory flush_state
    load_contract_state store_call store_sender ensure_actor get_balance move read_balance
    write_balance get_actor get_key load_actor load_state nonce_for_actor set_actor set_key set_root
    ◌+ℤ◌ ◌-ℤ◌ score clear_tx get_best_txs toy_marshal toy_get_block create_genesis_block put_memory
unknown_nb = refl

fetched : fetch_block toy (manager []).store nb.parent ≡ ok first_block
unfolding process_new_block validate_block get_next_block toy_find ◌=ᵇ◌ toy_unmarshal toy_load
    actor_exec get_sender check_nonce run_contract get_contract toy_equals call transfer
    address_cast number_cast bytes set_bytes accept_new_block add_to_dag block_cid clear_txs
    load_root settle exec_all fill_block after_validation check_block_state_change_valid
    check_block_valid execute_blocks fetch_block parent_of validate_from walk cast_arg cast_args
    make_typed_call_closure must_typed_call_closure typed_call cast_to_address has_hex_prefix
    apply_transactions call_contract err_is_fatal finish flush_memory flush_state
    load_contract_state store_call store_sender ensure_actor get_balance move read_balance
    write_balance get_actor get_key load_actor load_state nonce_for_actor set_actor set_key set_root
    ◌+ℤ◌ ◌-ℤ◌ score clear_tx get_best_txs toy_marshal toy_get_block create_genesis_block put_memory
fetched = refl

loaded : toy.load (manager []).store first_block.state_root ≡ ok (manager []).state_root
unfolding process_new_block validate_block get_next_block toy_find ◌=ᵇ◌ toy_unmarshal toy_load
    actor_exec get_sender check_nonce run_contract get_contract toy_equals call transfer
    address_cast number_cast bytes set_bytes accept_new_block add_to_dag block_cid clear_txs
    load_root settle exec_all fill_block after_validation check_block_state_change_valid
    check_block_valid execute_blocks fetch_block parent_of validate_from walk cast_arg cast_args
    make_typed_call_closure must_typed_call_closure typed_call cast_to_address has_hex_prefix
    apply_transactions call_contract err_is_fatal finish flush_memory flush_state
    load_contract_state store_call store_sender ensure_actor get_balance move read_balance
    write_balance get_actor get_key load_actor load_state nonce_for_actor set_actor set_key set_root
    ◌+ℤ◌ ◌-ℤ◌ score clear_tx get_best_txs toy_marshal toy_get_block create_genesis_block put_memory
loaded = refl

higher : score first_block < score nb
unfolding process_new_block validate_block get_next_block toy_find ◌=ᵇ◌ toy_unmarshal toy_load
    actor_exec get_sender check_nonce run_contract get_contract toy_equals call transfer
    address_cast number_cast bytes set_bytes accept_new_block add_to_dag block_cid clear_txs
    load_root settle exec_all fill_block after_validation check_block_state_change_valid
    check_block_valid execute_blocks fetch_block parent_of validate_from walk cast_arg cast_args
    make_typed_call_closure must_typed_call_closure typed_call cast_to_address has_hex_prefix
    apply_transactions call_contract err_is_fatal finish flush_memory flush_state
    load_contract_state store_call store_sender ensure_actor get_balance move read_balance
    write_balance get_actor get_key load_actor load_state nonce_for_actor set_actor set_key set_root
    ◌+ℤ◌ ◌-ℤ◌ score clear_tx get_best_txs toy_marshal toy_get_block create_genesis_block put_memory
higher = omega arith

abbrev valid : IsValidBlock toy (manager []) nb
valid = record {
  base = first_block;
  chain = nb ∷ [];
  start = (manager []).state_root;
  last = last;
  better = higher;
  links =
      grown (rooted (toy_cid first_block) cid_of_first known_first) (toy_cid nb) cid_of_nb
        unknown_nb fetched;
  loads = loaded;
  replays =
      moves (record { ran = ran; runs = runs; root = 3 ∷ []; flushes = flushes; named = named })
        (stays last);
}

short : length valid.chain < 2
unfolding process_new_block validate_block get_next_block toy_find ◌=ᵇ◌ toy_unmarshal toy_load
    actor_exec get_sender check_nonce run_contract get_contract toy_equals call transfer
    address_cast number_cast bytes set_bytes accept_new_block add_to_dag block_cid clear_txs
    load_root settle exec_all fill_block after_validation check_block_state_change_valid
    check_block_valid execute_blocks fetch_block parent_of validate_from walk cast_arg cast_args
    make_typed_call_closure must_typed_call_closure typed_call cast_to_address has_hex_prefix
    apply_transactions call_contract err_is_fatal finish flush_memory flush_state
    load_contract_state store_call store_sender ensure_actor get_balance move read_balance
    write_balance get_actor get_key load_actor load_state nonce_for_actor set_actor set_key set_root
    ◌+ℤ◌ ◌-ℤ◌ score clear_tx get_best_txs toy_marshal toy_get_block create_genesis_block put_memory
short = omega arith

IsValidBlock-validate_block_example :
    (m' : Manager toy) × (validate_block toy 2 nb (manager []) ≡ some (ok tt, m'))
IsValidBlock-validate_block_example =
    IsValidBlock-validate_block toy toy-IsCid 2 nb (manager []) valid short

exec_all_agrees_example :
    Agree toy 1
      (apply_transactions toy (tx 3 (pos 30) ∷ []) world)
      (exec_all toy (tx 3 (pos 30) ∷ []) [] world)
exec_all_agrees_example = exec_all_agrees toy (tx 3 (pos 30) ∷ []) world

-- A miner that works on a block of the last height.
abbrev late_miner : Miner
late_miner = record miner { current_block = record first_block { height = 2 ^ 64 - 1 } }

abbrev late : Block
late = block_of (get_next_block toy in_order late_miner (manager [])).0

is_late : (get_next_block toy in_order late_miner (manager [])).0 ≡ ok late
unfolding process_new_block validate_block get_next_block toy_find ◌=ᵇ◌ toy_unmarshal toy_load
    actor_exec get_sender check_nonce run_contract get_contract toy_equals call transfer
    address_cast number_cast bytes set_bytes accept_new_block add_to_dag block_cid clear_txs
    load_root settle exec_all fill_block after_validation check_block_state_change_valid
    check_block_valid execute_blocks fetch_block parent_of validate_from walk cast_arg cast_args
    make_typed_call_closure must_typed_call_closure typed_call cast_to_address has_hex_prefix
    apply_transactions call_contract err_is_fatal finish flush_memory flush_state
    load_contract_state store_call store_sender ensure_actor get_balance move read_balance
    write_balance get_actor get_key load_actor load_state nonce_for_actor set_actor set_key set_root
    ◌+ℤ◌ ◌-ℤ◌ score clear_tx get_best_txs toy_marshal toy_get_block create_genesis_block put_memory
is_late = refl

last_height_refused_example :
    (late.height ≡ 0)
    × ((fuel : ℕ) (other : Manager toy)
        → process_new_block toy fuel late other
          ≡ some (err (wrap Context.validate (message Message.not_better)), other))
last_height_refused_example =
    last_height_refused toy in_order toy-IsCid late_miner (manager []) is_late refl
