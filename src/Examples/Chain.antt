-- ===== src/Examples/Chain.antt =====
-- A chain of two blocks on the example platform: the first holds the state, the second is mined.
use toychain.Examples.Toy.{toy_get_block}
use toychain.Types.Pool.{clear_tx}
use toychain.Contract.Execute.{apply_transactions}
use toychain.Chain.Validate.{walk}
use toychain.Chain.Validate.{validate_from}
use toychain.Chain.Validate.{parent_of}
use toychain.Chain.Validate.{fetch_block}
use toychain.Chain.Validate.{execute_blocks}
use toychain.Chain.Validate.{parent_of, check_block_valid}
use toychain.Chain.Process.{after_validation}
use toychain.Chain.Manager.{settle}
use toychain.Chain.Manager.{clear_txs}
use toychain.Chain.Manager.{add_to_dag}
use toychain.Chain.Manager.{accept_new_block}
use toychain.Chain.Validate.{validate_block}
use toychain.Examples.Toy.{toy_marshal}
use toychain.Types.Pool.{get_best_txs}
use mathlib.Core.List.{mem-cons}
use mathlib.Core.List.Perm
use mathlib.Core.Logic.Or
use toychain.Prelude.Int.{◌-ℤ◌}
use toychain.Prelude.Int.{◌+ℤ◌}
use toychain.Contract.World.{set_root}
use toychain.Contract.World.{set_key}
use toychain.Contract.World.{set_actor}
use toychain.Contract.World.{nonce_for_actor}
use toychain.Contract.World.{load_state}
use toychain.Contract.World.{load_actor}
use toychain.Contract.World.{get_key}
use toychain.Contract.World.{get_actor}
use toychain.Contract.Token.{write_balance}
use toychain.Contract.Token.{move}
use toychain.Contract.Token.{get_balance}
use toychain.Contract.Token.{ensure_actor}
use toychain.Contract.Execute.{store_sender}
use toychain.Contract.Execute.{store_call}
use toychain.Contract.Execute.{load_contract_state}
use toychain.Contract.Execute.{flush_state}
use toychain.Contract.Execute.{flush_memory}
use toychain.Contract.Execute.{finish}
use toychain.Contract.Execute.{err_is_fatal}
use toychain.Contract.Execute.{call_contract}
use toychain.Contract.Cast.{has_hex_prefix}
use toychain.Contract.Cast.{cast_to_address}
use toychain.Contract.Call.{typed_call}
use toychain.Contract.Call.{must_typed_call_closure}
use toychain.Contract.Call.{make_typed_call_closure}
use toychain.Contract.Call.{cast_args}
use toychain.Contract.Call.{cast_arg}
use toychain.Chain.Miner.{fill_block}
use toychain.Chain.Miner.{exec_all}
use toychain.Chain.Manager.{load_root}
use toychain.Chain.Manager.{block_cid}
use toychain.BigInt.{bytes}
use toychain.BigInt.{set_bytes}
use toychain.Contract.Token.{read_balance}
use toychain.Contract.Cast.{number_cast}
use toychain.Contract.Cast.{address_cast}
use toychain.Contract.Token.{transfer}
use toychain.Contract.Call.{call}
use toychain.Examples.Toy.{toy_equals}
use toychain.Contract.Execute.{get_contract}
use toychain.Contract.Execute.{run_contract}
use toychain.Contract.Execute.{check_nonce}
use toychain.Contract.Execute.{get_sender}
use toychain.Contract.Execute.{actor_exec}
use toychain.Examples.Toy.{toy_load}
use toychain.Examples.Toy.{toy_unmarshal}
use toychain.Examples.Toy.{toy_find}
use toychain.Prelude.{
  ◌<◌, ◌≡◌, ◌≢◌, refl, sym, ap, ◌∙◌, ◌=ᵇ◌, true, Option, none, some, List, [], ◌∷◌, arith,
}
use toychain.Outcome.{ok_injective, Outcome, ok, panic}
use toychain.Types.Transaction.{Transaction}
use toychain.Types.Block.{Block, score}
use toychain.Types.Pool.{Pool, lookup}
use toychain.Examples.Toy.{toy, ToyNode, toy-IsCid, toy_cid}
use toychain.Examples.Contract.{alice}
use toychain.Chain.Manager.{Manager, block_cid, has, state_of}
use toychain.Chain.Validate.{parent_of, check_block_state_change_valid}
use toychain.Chain.Process.{process_new_block}
use toychain.Chain.Miner.{Miner, contract_addr, get_next_block}
use toychain.Chain.Laws.Walk.{HasDepth, process_new_block_returns}
use toychain.Chain.Laws.Head.{IsHead}
use toychain.Chain.Laws.Process.{IsAnchored, process_new_block-IsHead}
use toychain.Chain.Laws.Mining.{IsMined, get_next_block-IsMined}
use toychain.Chain.Laws.Poison.{IsUnknown, poisoned_block_fails, poisoned_pool_stops_mining}

-- The contract's own address has 2^24 tokens.
abbrev ledger : ToyNode
ledger = (contract_addr, 1 ∷ 0 ∷ 0 ∷ 0 ∷ []) ∷ []

abbrev actors : ToyNode
actors = (alice, 3 ∷ 0 ∷ 0 ∷ 0 ∷ 0 ∷ []) ∷ (contract_addr, 0 ∷ 1 ∷ 7 ∷ 1 ∷ 0 ∷ []) ∷ []

abbrev pub first_block : Block
first_block = record {
  parent = none;
  txs = [];
  receipts = [];
  height = 0;
  state_root = some (1 ∷ []);
  tick_limit = none;
  ticks_used = none;
}

abbrev pub manager : Pool → Manager toy
manager pool = record {
  store = record { nodes = ledger ∷ actors ∷ []; blocks = (toy_cid first_block, first_block) ∷ [] };
  best_block = first_block;
  head_cid = some (toy_cid first_block);
  state_root = actors;
  tx_pool = pool;
  known_good_blocks = toy_cid first_block ∷ [];
  notified = [];
}

abbrev pub miner : Miner
miner = record { current_block = first_block; miner_address = alice }

abbrev pub in_order : List Transaction → List Transaction
in_order l = l

abbrev pub block_of : Outcome Block → Block
block_of (ok b) = b
block_of _ = first_block

abbrev pub mined : Outcome Block × Manager toy
mined = get_next_block toy in_order miner (manager [])

abbrev pub nb : Block
nb = block_of mined.0

pub is_mined : mined.0 ≡ ok nb
unfolding get_next_block toy_find ◌=ᵇ◌ toy_unmarshal toy_load actor_exec get_sender check_nonce
    run_contract get_contract toy_equals call transfer address_cast number_cast read_balance
    set_bytes bytes block_cid load_root exec_all fill_block cast_arg cast_args
    make_typed_call_closure must_typed_call_closure typed_call cast_to_address has_hex_prefix
    call_contract err_is_fatal finish flush_memory flush_state load_contract_state store_call
    store_sender ensure_actor get_balance move write_balance get_actor get_key load_actor load_state
    nonce_for_actor set_actor set_key set_root ◌+ℤ◌ ◌-ℤ◌ get_best_txs toy_marshal
is_mined = refl

get_next_block-IsMined_example : IsMined toy in_order miner (manager []) nb
get_next_block-IsMined_example =
    get_next_block-IsMined toy in_order toy-IsCid miner (manager []) is_mined

abbrev result_of : Option (Outcome (Unit {0}) × Manager toy) → Manager toy
result_of (some r) = r.1
result_of none = manager []

abbrev pub after : Manager toy
after = result_of (process_new_block toy 2 nb (manager []))

pub is_processed : process_new_block toy 2 nb (manager []) ≡ some (ok tt, after)
unfolding process_new_block validate_block get_next_block toy_find ◌=ᵇ◌ toy_unmarshal toy_load
    actor_exec get_sender check_nonce run_contract get_contract toy_equals call transfer
    address_cast number_cast bytes set_bytes accept_new_block add_to_dag block_cid clear_txs
    load_root settle exec_all fill_block after_validation check_block_state_change_valid
    check_block_valid execute_blocks fetch_block parent_of validate_from walk cast_arg cast_args
    make_typed_call_closure must_typed_call_closure typed_call cast_to_address has_hex_prefix
    apply_transactions call_contract err_is_fatal finish flush_memory flush_state
    load_contract_state store_call store_sender ensure_actor get_balance move read_balance
    write_balance get_actor get_key load_actor load_state nonce_for_actor set_actor set_key set_root
    ◌+ℤ◌ ◌-ℤ◌ score clear_tx get_best_txs toy_marshal toy_get_block
is_processed = refl

pub cid_of_first : block_cid toy first_block ≡ ok (toy_cid first_block)
unfolding block_cid
cid_of_first = refl

pub known_first : has (toy_cid first_block) (toy_cid first_block ∷ []) ≡ true
unfolding ◌=ᵇ◌
known_first = refl

is_anchored : IsAnchored toy (manager [])
is_anchored = record { cid = toy_cid first_block; is_cid = cid_of_first; known = known_first }

process_new_block-IsHead_example : (score first_block < score nb) × IsHead toy nb after
process_new_block-IsHead_example = process_new_block-IsHead toy 2 nb (manager []) is_processed

-- A transaction with the method "x".
abbrev bad_tx : Transaction
bad_tx = record {
  to = contract_addr;
  sender = alice;
  nonce = 3;
  tick_cost = none;
  ticks = none;
  method = b'x' ∷ [];
  params = [];
  signature = none;
}

bad_IsUnknown : IsUnknown bad_tx
unfolding ◌=ᵇ◌
bad_IsUnknown = record { not_transfer = refl; not_balance = refl }

listed_bad : lookup (4 ∷ []) ((4 ∷ [], bad_tx) ∷ []) ≡ some bad_tx
unfolding ◌=ᵇ◌
listed_bad = refl

poisoned_pool_stops_mining_example :
    (get_next_block toy in_order miner (manager ((4 ∷ [], bad_tx) ∷ []))).0 ≢ ok first_block
poisoned_pool_stops_mining_example =
    poisoned_pool_stops_mining toy toy-IsCid in_order (λ l. Perm.refl l) miner
      (manager ((4 ∷ [], bad_tx) ∷ [])) (4 ∷ []) bad_tx first_block listed_bad bad_IsUnknown

poisoned_block_fails_example :
    (check_block_state_change_valid toy
      (record first_block { txs = bad_tx ∷ [] })
      (state_of toy (manager []))).0
    ≢ ok tt
poisoned_block_fails_example =
    poisoned_block_fails toy bad_tx (record first_block { txs = bad_tx ∷ [] })
      (state_of toy (manager [])) bad_IsUnknown (mem-cons.1 (Or.inl refl))

panic_ne_ok : {b : Block} → panic ≢ ok b
panic_ne_ok h = cc

pub parent_of-nb :
    parent_of toy (manager []).store (manager []).known_good_blocks nb ≡ ok first_block
unfolding parent_of toy_get_block get_next_block toy_find ◌=ᵇ◌ toy_unmarshal toy_load actor_exec
    get_sender check_nonce run_contract get_contract toy_equals call transfer address_cast
    number_cast bytes set_bytes block_cid load_root exec_all fill_block check_block_valid
    fetch_block cast_arg cast_args make_typed_call_closure must_typed_call_closure typed_call
    cast_to_address has_hex_prefix call_contract err_is_fatal finish flush_memory flush_state
    load_contract_state store_call store_sender ensure_actor get_balance move read_balance
    write_balance get_actor get_key load_actor load_state nonce_for_actor set_actor set_key set_root
    ◌+ℤ◌ ◌-ℤ◌ get_best_txs toy_marshal
parent_of-nb = refl

parent_of-first_block :
    parent_of toy (manager []).store (manager []).known_good_blocks first_block ≡ panic
unfolding parent_of toy_get_block
parent_of-first_block = refl

nb-HasDepth : HasDepth toy (manager []).store (manager []).known_good_blocks 2 nb
nb-HasDepth next e next' e' = panic_ne_ok (
    sym parent_of-first_block
    ∙ ap (parent_of toy (manager []).store (manager []).known_good_blocks)
        (ok_injective (sym parent_of-nb ∙ e))
    ∙ e')

process_new_block_returns_example :
    (r : Outcome (Unit {0}) × Manager toy) × (process_new_block toy 3 nb (manager []) ≡ some r)
process_new_block_returns_example =
    process_new_block_returns toy 2 3 nb (manager []) nb-HasDepth (omega arith)
