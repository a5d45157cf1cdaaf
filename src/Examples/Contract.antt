-- ===== src/Examples/Contract.antt =====
-- Runs of the token contract and of transactions on the example platform.
use toychain.Contract.World.{load_actor}
use toychain.Contract.Token.{get_balance}
use toychain.Contract.Execute.{load_contract_state}
use toychain.Contract.Execute.{err_is_fatal}
use toychain.Contract.Cast.{has_hex_prefix}
use toychain.Contract.Cast.{cast_to_address}
use toychain.Contract.Call.{typed_call}
use toychain.Contract.Call.{must_typed_call_closure}
use toychain.Contract.Call.{make_typed_call_closure}
use toychain.Contract.Call.{cast_args}
use toychain.Contract.Call.{cast_arg}
use toychain.Examples.Toy.{toy_marshal}
use toychain.Contract.Execute.{store_call, store_sender, flush_memory, finish, call_contract}
use toychain.Examples.Toy.{toy_load}
use toychain.Examples.Toy.{toy_equals}
use toychain.Contract.Execute.{get_contract}
use toychain.Contract.Execute.{run_contract}
use toychain.Contract.Execute.{check_nonce}
use toychain.Contract.Execute.{get_sender}
use toychain.Examples.Toy.{toy_unmarshal}
use toychain.Prelude.{
  ℕ, ◌⊎◌, ◌+◌, ◌%◌, ◌^◌, ◌≡◌, refl, ◌=ᵇ◌, true, false, none, some, List, [], ◌∷◌, arith,
}
use toychain.Prelude.Int.{ℤ, pos, negsuc, abs, ◌+ℤ◌, ◌-ℤ◌, ◌≤ℤ◌, ltb_ℤ}
use toychain.Outcome.{ok, err, Message, message, revert}
use toychain.BigInt.{bytes, set_bytes}
use toychain.Types.Value.{Value, nil, address, big_int}
use toychain.Types.Address.{Address}
use toychain.Types.Transaction.{Transaction}
use toychain.Platform.{Actor}
use toychain.Contract.World.{World, Frame, get_actor, set_actor, get_key, set_key, set_root}
use toychain.Contract.Cast.{address_cast, number_cast}
use toychain.Contract.Token.{transfer, move, ensure_actor, read_balance, write_balance}
use toychain.Contract.Call.{transfer_name, call}
use toychain.Examples.Toy.{toy, ToyNode, toy-IsHamt, toy-IsActorCodec, toy_find}
use toychain.Contract.Execute.{actor_exec, succeeded, reverted}
use toychain.Contract.Laws.Move.{balance}
use toychain.Contract.Laws.Branches.{IsKnown, IsWritable, transfer_by_funds}
use toychain.Contract.Laws.Actors.{actor_at}
use toychain.Contract.Laws.Replay.{
  stale_nonce_refused, nonce_advances, no_replay, revert-KeepsActors,
}
use toychain.Contract.Laws.Transfer.{
  Reads, transfer_moves_funds, self_transfer_mints, negative_transfer_takes,
}
use toychain.Contract.Laws.Supply.{total-transfer, total}

abbrev pub alice : Address
alice = 1 ∷ []

abbrev pub bob : Address
bob = 2 ∷ []

abbrev pub token : Address
token = 9 ∷ []

abbrev pub user : ℕ → Actor
user n = record { code = none; memory = none; nonce = n }

abbrev pub token_actor_at : ℕ → Actor
token_actor_at i = record { code = some (7 ∷ []); memory = some (i ∷ []); nonce = 0 }

-- Alice has 100, Bob 5.
abbrev pub ledger : ToyNode
ledger = (alice, 100 ∷ []) ∷ (bob, 5 ∷ []) ∷ []

abbrev pub actors : ToyNode
actors =
    (alice, 3 ∷ 0 ∷ 0 ∷ 0 ∷ 0 ∷ [])
    ∷ (bob, 0 ∷ 0 ∷ 0 ∷ 0 ∷ 0 ∷ [])
    ∷ (token, 0 ∷ 1 ∷ 7 ∷ 1 ∷ 0 ∷ [])
    ∷ []

abbrev pub world : World toy
world = record { store = record { nodes = ledger ∷ []; blocks = [] }; root = actors }

abbrev pub frame : Frame toy
frame = record { world = world; memory = ledger }

abbrev pub args : Address → ℤ → List Value
args a n = address a ∷ big_int n ∷ []

reads : (a : Address) (n : ℤ) → Reads (args a n) a n
unfolding address_cast number_cast
reads a n = record {
  to_arg = address a;
  amount_arg = big_int n;
  two = refl;
  is_address = refl;
  is_number = refl;
}

paid_bob : (transfer toy alice (args bob (pos 30)) frame).0 ≡ ok nil
unfolding ◌=ᵇ◌ address_cast number_cast transfer get_actor set_actor write_balance read_balance
    toy_find set_bytes bytes toy_unmarshal
paid_bob = refl

total-transfer_example :
    total (balance toy (transfer toy alice (args bob (pos 30)) frame).1) (alice ∷ bob ∷ []) + 30
    ≡ total (balance toy frame) (alice ∷ bob ∷ []) + 30
unfolding ◌=ᵇ◌
total-transfer_example =
    total-transfer toy toy-IsHamt alice bob (args bob (pos 30)) 30 frame (reads bob (pos 30)) refl
      paid_bob (alice ∷ bob ∷ []) (refl, (refl, tt))

transfer_moves_funds_example :
    (pos 30 ≤ℤ balance toy frame alice)
    × (balance toy (transfer toy alice (args bob (pos 30)) frame).1 alice
        ≡ balance toy frame alice -ℤ pos 30)
    × (balance toy (transfer toy alice (args bob (pos 30)) frame).1 bob
        ≡ balance toy frame bob +ℤ pos 30)
    × ((a : Address)
        → (alice =ᵇ a) ≡ false
        → (bob =ᵇ a) ≡ false
        → balance toy (transfer toy alice (args bob (pos 30)) frame).1 a ≡ balance toy frame a)
unfolding ◌=ᵇ◌
transfer_moves_funds_example =
    transfer_moves_funds toy toy-IsHamt alice bob (args bob (pos 30)) 30 frame (reads bob (pos 30))
      refl paid_bob

paid_self : (transfer toy alice (args alice (pos 30)) frame).0 ≡ ok nil
unfolding transfer address_cast number_cast toy_find ◌=ᵇ◌ toy_unmarshal read_balance set_bytes
    write_balance
paid_self = refl

self_transfer_mints_example :
    (balance toy (transfer toy alice (args alice (pos 30)) frame).1 alice
      ≡ balance toy frame alice +ℤ pos 30)
    × ((a : Address)
        → (alice =ᵇ a) ≡ false
        → balance toy (transfer toy alice (args alice (pos 30)) frame).1 a ≡ balance toy frame a)
self_transfer_mints_example =
    self_transfer_mints toy toy-IsHamt alice (args alice (pos 30)) 30 frame (reads alice (pos 30))
      paid_self

took : (transfer toy alice (args bob (negsuc 3)) frame).0 ≡ ok nil
unfolding transfer address_cast number_cast toy_find ◌=ᵇ◌ toy_unmarshal read_balance set_bytes
    write_balance
took = refl

negative_transfer_takes_example :
    (balance toy (transfer toy alice (args bob (negsuc 3)) frame).1 alice
      ≡ balance toy frame alice +ℤ pos 4)
    × (balance toy (transfer toy alice (args bob (negsuc 3)) frame).1 bob
        ≡ pos (abs (balance toy frame bob -ℤ pos 4)))
unfolding ◌=ᵇ◌
negative_transfer_takes_example =
    negative_transfer_takes toy toy-IsHamt alice bob (args bob (negsuc 3)) 3 frame
      (reads bob (negsuc 3)) refl took

known_to : (n : ℤ) → IsKnown toy alice bob (args bob n) n frame
unfolding toy_find get_actor ◌=ᵇ◌ toy_unmarshal
known_to n = record { actor = user 0; known = refl; reads_from = tt }

writable_30 : IsWritable toy alice bob (args bob (pos 30)) (pos 30) frame
unfolding toy_find ◌=ᵇ◌
writable_30 = record { reads_to = tt; takes = λ k v m. refl }

transfer_by_funds_example :
    ((pos 30 ≤ℤ balance toy frame alice)
      × ((transfer toy alice (args bob (pos 30)) frame).0 ≡ ok nil)
      × (balance toy (transfer toy alice (args bob (pos 30)) frame).1 alice
          ≡ balance toy frame alice -ℤ pos 30)
      × (balance toy (transfer toy alice (args bob (pos 30)) frame).1 bob
          ≡ balance toy frame bob +ℤ pos 30)
      × ((a : Address)
          → (alice =ᵇ a) ≡ false
          → (bob =ᵇ a) ≡ false
          → balance toy (transfer toy alice (args bob (pos 30)) frame).1 a ≡ balance toy frame a))
    ⊎ ((ltb_ℤ (balance toy frame alice) (pos 30) ≡ true)
        × (transfer toy alice (args bob (pos 30)) frame
            ≡ (err (revert (message Message.not_enough_funds)), frame)))
unfolding ◌=ᵇ◌
transfer_by_funds_example =
    transfer_by_funds toy alice bob (args bob (pos 30)) 30 frame toy-IsHamt (reads bob (pos 30))
      refl (known_to (pos 30)) writable_30

abbrev pub tx : ℕ → ℤ → Transaction
tx nonce n = record {
  to = token;
  sender = alice;
  nonce = nonce;
  tick_cost = none;
  ticks = none;
  method = transfer_name;
  params = args bob n;
  signature = none;
}

ran : (actor_exec toy (tx 3 (pos 30)) world).0 ≡ ok (succeeded nil)
unfolding actor_exec write_balance bytes ensure_actor move set_root store_call store_sender
    flush_memory finish call_contract toy_find ◌=ᵇ◌ toy_unmarshal get_sender check_nonce
    run_contract get_contract toy_equals toy_load call transfer address_cast number_cast
    read_balance set_bytes set_actor toy_marshal cast_arg cast_args make_typed_call_closure
    must_typed_call_closure typed_call cast_to_address has_hex_prefix err_is_fatal
    load_contract_state get_balance get_actor get_key load_actor set_key ◌+ℤ◌ ◌-ℤ◌
ran = refl

ran_reverted : (actor_exec toy (tx 3 (pos 300)) world).0 ≡ ok reverted
unfolding actor_exec get_actor toy_find ◌=ᵇ◌ toy_unmarshal get_sender check_nonce run_contract
    get_contract toy_equals toy_load call transfer address_cast number_cast read_balance set_bytes
ran_reverted = refl

nonce_advances_example :
    (before : Actor) × (after : Actor) × (actor_at toy world alice ≡ ok before)
    × (before.nonce ≡ 3)
    × (actor_at toy (actor_exec toy (tx 3 (pos 30)) world).1 alice ≡ ok after)
    × (after.nonce ≡ (3 + 1) % 2 ^ 64)
nonce_advances_example =
    nonce_advances toy toy-IsHamt toy-IsActorCodec (tx 3 (pos 30)) world ran refl

no_replay_example :
    actor_exec toy (tx 3 (pos 30)) (actor_exec toy (tx 3 (pos 30)) world).1
    ≡ (err (message Message.invalid_nonce), (actor_exec toy (tx 3 (pos 30)) world).1)
no_replay_example =
    no_replay toy toy-IsHamt toy-IsActorCodec (tx 3 (pos 30)) world (omega arith) ran refl

alice_there : actor_at toy world alice ≡ ok (user 3)
unfolding actor_at get_actor toy_find ◌=ᵇ◌ toy_unmarshal
alice_there = refl

revert-KeepsActors_example :
    actor_at toy (actor_exec toy (tx 3 (pos 300)) world).1 alice ≡ ok (user 3)
revert-KeepsActors_example =
    revert-KeepsActors toy toy-IsHamt toy-IsActorCodec (tx 3 (pos 300)) world ran_reverted refl
      alice (user 3) alice_there

token_there : actor_at toy world token ≡ ok (token_actor_at 0)
unfolding actor_at get_actor toy_find ◌=ᵇ◌ toy_unmarshal
token_there = refl

stale_nonce_refused_example :
    actor_exec toy (tx 4 (pos 30)) world ≡ (err (message Message.invalid_nonce), world)
stale_nonce_refused_example =
    stale_nonce_refused toy (tx 4 (pos 30)) world (token_actor_at 0) (user 3) token_there
      alice_there (λ e. omega (arith, e))
