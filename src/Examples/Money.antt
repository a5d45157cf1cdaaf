-- ===== src/Examples/Money.antt =====
-- A block on the first block that pays a miner.
use toychain.Examples.Toy.{
  toy_equals, toy_find, toy_get_block, toy_load, toy_marshal, toy_unmarshal,
}
use toychain.Types.Pool.{clear_tx, get_best_txs}
use toychain.Contract.Execute.{
  actor_exec, call_contract, check_nonce, err_is_fatal, finish, flush_memory, get_contract,
  get_sender, load_contract_state, run_contract, store_call, store_sender,
}
use toychain.Chain.Validate.{
  check_block_state_change_valid, check_block_valid, execute_blocks, fetch_block, parent_of,
  validate_block, validate_from, walk,
}
use toychain.Chain.Process.{after_validation, process_new_block}
use toychain.Chain.Manager.{accept_new_block, add_to_dag, block_cid, clear_txs, load_root, settle}
use toychain.Prelude.Int.{◌+ℤ◌, ◌-ℤ◌}
use toychain.Contract.World.{
  get_actor, get_key, load_actor, load_state, nonce_for_actor, set_actor, set_key, set_root,
}
use toychain.Contract.Token.{ensure_actor, get_balance, move, read_balance, transfer, write_balance}
use toychain.Contract.Cast.{address_cast, cast_to_address, has_hex_prefix, number_cast}
use toychain.Contract.Call.{
  call, cast_arg, cast_args, make_typed_call_closure, must_typed_call_closure, typed_call,
}
use toychain.Chain.Miner.{exec_all, fill_block, get_next_block}
use toychain.BigInt.{bytes, set_bytes}
use toychain.Types.Block.{score}
use toychain.Core.Genesis.{put_memory}
use toychain.Prelude.{◌≡◌, refl, ◌=ᵇ◌, true, some, List, [], ◌∷◌, inr}
use toychain.Prelude.Int.{abs}
use toychain.Outcome.{ok}
use toychain.Types.Value.{address, big_int}
use toychain.Types.Address.{Address}
use toychain.Types.Block.{Block}
use toychain.Platform.Laws.{Grows}
use toychain.Contract.World.{World}
use toychain.Contract.Execute.{apply_transactions, flush_state}
use toychain.Contract.Laws.Transfer.{Reads}
use toychain.Contract.Laws.Supply.{contains, IsDistinct}
use toychain.Contract.Laws.Reading.{IsOrdinary}
use toychain.Contract.Laws.Conserve.{HasTotal}
use toychain.Chain.Miner.{contract_addr, reward_tx, mining_reward}
use toychain.Chain.Valid.{Moves, stays, moves}
use toychain.Core.Genesis.{genesis_block, initial_network_tokens, new_frame, create_genesis_block}
use toychain.Core.Laws.Money.{supply_is_fixed}
use toychain.Examples.Toy.{toy, ToyStore, ToyNode, toy-IsHamt, toy-IsActorCodec}
use toychain.Examples.Contract.{alice}
use toychain.Examples.Core.{empty_store, made}

abbrev store : ToyStore
store = (create_genesis_block toy (new_frame toy empty_store)).1.world.store

abbrev root : ToyNode
root = (create_genesis_block toy (new_frame toy empty_store)).1.world.root

abbrev start : World toy
start = record { store = store; root = root }

abbrev ran : World toy
ran = (apply_transactions toy (reward_tx alice 0 ∷ []) start).1

abbrev last : World toy
last = (flush_state toy ran).1

-- The block that pays Alice the reward.
abbrev paying : Block
paying = record (genesis_block (3 ∷ [])) { txs = reward_tx alice 0 ∷ []; height = 1 }

same_store : Grows toy store store
same_store = record { finds = λ n k h. refl; loads = λ c n h. h }

is_loaded : toy.load store (some (1 ∷ [])) ≡ ok root
unfolding process_new_block validate_block get_next_block toy_find ◌=ᵇ◌ toy_unmarshal toy_load
    actor_exec get_sender check_nonce run_contract get_contract toy_equals call transfer
    address_cast number_cast bytes set_bytes accept_new_block add_to_dag block_cid clear_txs
    load_root settle exec_all fill_block after_validation check_block_state_change_valid
    check_block_valid execute_blocks fetch_block parent_of validate_from walk cast_arg cast_args
    make_typed_call_closure must_typed_call_closure typed_call cast_to_address has_hex_prefix
    apply_transactions call_contract err_is_fatal finish flush_memory flush_state
    load_contract_state store_call store_sender ensure_actor get_balance move read_balance
    write_balance get_actor get_key load_actor load_state nonce_for_actor set_actor set_key set_root
    ◌+ℤ◌ ◌-ℤ◌ score clear_tx get_best_txs toy_marshal toy_get_block create_genesis_block put_memory
is_loaded = refl

runs : apply_transactions toy (reward_tx alice 0 ∷ []) start ≡ (ok tt, ran)
unfolding process_new_block validate_block get_next_block toy_find ◌=ᵇ◌ toy_unmarshal toy_load
    actor_exec get_sender check_nonce run_contract get_contract toy_equals call transfer
    address_cast number_cast bytes set_bytes accept_new_block add_to_dag block_cid clear_txs
    load_root settle exec_all fill_block after_validation check_block_state_change_valid
    check_block_valid execute_blocks fetch_block parent_of validate_from walk cast_arg cast_args
    make_typed_call_closure must_typed_call_closure typed_call cast_to_address has_hex_prefix
    apply_transactions call_contract err_is_fatal finish flush_memory flush_state
    load_contract_state store_call store_sender ensure_actor get_balance move read_balance
    write_balance get_actor get_key load_actor load_state nonce_for_actor set_actor set_key set_root
    ◌+ℤ◌ ◌-ℤ◌ score clear_tx get_best_txs toy_marshal toy_get_block create_genesis_block put_memory
runs = refl

flushes : flush_state toy ran ≡ (ok (3 ∷ []), last)
unfolding process_new_block validate_block get_next_block toy_find ◌=ᵇ◌ toy_unmarshal toy_load
    actor_exec get_sender check_nonce run_contract get_contract toy_equals call transfer
    address_cast number_cast bytes set_bytes accept_new_block add_to_dag block_cid clear_txs
    load_root settle exec_all fill_block after_validation check_block_state_change_valid
    check_block_valid execute_blocks fetch_block parent_of validate_from walk cast_arg cast_args
    make_typed_call_closure must_typed_call_closure typed_call cast_to_address has_hex_prefix
    apply_transactions call_contract err_is_fatal finish flush_memory flush_state
    load_contract_state store_call store_sender ensure_actor get_balance move read_balance
    write_balance get_actor get_key load_actor load_state nonce_for_actor set_actor set_key set_root
    ◌+ℤ◌ ◌-ℤ◌ score clear_tx get_best_txs toy_marshal toy_get_block create_genesis_block put_memory
flushes = refl

abbrev paying-Moves : Moves toy start paying last
paying-Moves = record { ran = ran; runs = runs; root = 3 ∷ []; flushes = flushes; named = refl }

abbrev accounts : List Address
accounts = contract_addr ∷ alice ∷ []

distinct : IsDistinct accounts
unfolding ◌=ᵇ◌
distinct = (refl, (refl, tt))

listed : contains contract_addr accounts ≡ true
unfolding ◌=ᵇ◌
listed = refl

reward-Reads : Reads (reward_tx alice 0).params alice mining_reward
unfolding process_new_block validate_block get_next_block toy_find ◌=ᵇ◌ toy_unmarshal toy_load
    actor_exec get_sender check_nonce run_contract get_contract toy_equals call transfer
    address_cast number_cast bytes set_bytes accept_new_block add_to_dag block_cid clear_txs
    load_root settle exec_all fill_block after_validation check_block_state_change_valid
    check_block_valid execute_blocks fetch_block parent_of validate_from walk cast_arg cast_args
    make_typed_call_closure must_typed_call_closure typed_call cast_to_address has_hex_prefix
    apply_transactions call_contract err_is_fatal finish flush_memory flush_state
    load_contract_state store_call store_sender ensure_actor get_balance move read_balance
    write_balance get_actor get_key load_actor load_state nonce_for_actor set_actor set_key set_root
    ◌+ℤ◌ ◌-ℤ◌ score clear_tx get_best_txs toy_marshal toy_get_block create_genesis_block put_memory
reward-Reads = record {
  to_arg = address alice;
  amount_arg = big_int mining_reward;
  two = refl;
  is_address = refl;
  is_number = refl;
}

reward-IsOrdinary : IsOrdinary contract_addr accounts (reward_tx alice 0)
unfolding ◌=ᵇ◌
reward-IsOrdinary = record {
  to_contract = refl;
  call_is = inr (alice, 1000000, reward-Reads, refl, refl, refl);
}

supply_is_fixed_example : HasTotal toy last contract_addr accounts (abs initial_network_tokens)
supply_is_fixed_example =
    supply_is_fixed toy toy-IsHamt toy-IsActorCodec empty_store store root (genesis_block (1 ∷ []))
      (paying ∷ []) last accounts made same_store is_loaded (moves paying-Moves (stays last))
      distinct listed ((reward-IsOrdinary, tt), tt)
