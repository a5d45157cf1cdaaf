-- ===== src/Contract/Execute.antt =====
-- `ActorExec`, `ActorCall` and `ApplyTransactions` of contract/state.go, and the flush of a state.
use toychain.Prelude.{
  ℕ, ◌+◌, ◌%◌, ◌^◌, Bool, true, false, not, Option, some, List, [], ◌∷◌, ◌=ᵇ◌, ◌==◌, if◌then◌else◌,
}
use toychain.Outcome
use toychain.Outcome.{Outcome, ok, err, panic, Error, revert, Context, wrapping, Message, message}
use toychain.Exec.{Exec, pure, fail, lift, ◌>>=◌, ◌>>◌}
use toychain.Types.Value.{Value, nil, Cid}
use toychain.Types.Address.{Address}
use toychain.Types.Transaction.{Transaction}
use toychain.Types.Block.{Receipt}
use toychain.Platform.{Platform, Actor}
use toychain.Contract.World.{World, Frame, get_actor, set_actor}
use toychain.Contract.Call.{call}

-- `errIsFatal`
unfoldable pub err_is_fatal : Error → Bool
err_is_fatal (revert e) = false
err_is_fatal _ = true

-- `Contract` has one implementation.
pub data Contract : Type 0 where
  toychain_token : Contract

-- `from.Nonce++` on a uint64.
abbrev pub bump_nonce : Actor → Actor
bump_nonce act = record act { nonce = (act.nonce + 1) % 2 ^ 64 }

abbrev pub succeeded : Value → Receipt
succeeded val = record { success = true; result = val }

-- The receipt of a call that reverted.
abbrev pub reverted : Receipt
reverted = record { success = false; result = nil }

module _ (p : Platform) where
  open p use {Store, Node, flush, put, load, equals, contract_cid}

  abbrev pub in_context : {A : Type 0} → Context → Exec (World p) A → Exec (World p) A
  in_context c m w = let (r, w') = m w in (wrapping c r, w')

  abbrev contract_if : Bool → Outcome Contract
  contract_if true = ok toychain_token
  contract_if false = err (message Message.no_contract_code)

  -- `GetContract`
  unfoldable pub get_contract : Option Cid → Outcome Contract
  get_contract code = Outcome.◌>>=◌ (equals code (some contract_cid)) contract_if

  -- `LoadContractState`
  unfoldable pub load_contract_state : Option Cid → Exec (World p) Node
  load_contract_state mem w = (wrapping Context.store_get (load w.store mem), w)

  -- `State.Flush`
  unfoldable pub flush_state : Exec (World p) Cid
  flush_state w =
      let (r, n, st) = flush w.root w.store in
      elim r [
        | ok _ ↦ let (r', st') = put n st in (r', record { store = st'; root = n })
        | err e ↦ (err e, record { store = st; root = n })
        | panic ↦ (panic, record { store = st; root = n })
      ]

  -- `ContractState.Flush`, of the memory `n`.
  unfoldable pub flush_memory : Node → Exec (World p) Cid
  flush_memory n w =
      let (r, n', st) = flush n w.store in
      elim r [
        | ok _ ↦ let (r', st') = put n' st in (r', record w { store = st' })
        | err e ↦ (err e, record w { store = st })
        | panic ↦ (panic, record w { store = st })
      ]

  -- The sender's actor: the receiver's own, as the same object, when the two addresses are equal.
  unfoldable pub get_sender : Transaction → Actor → Exec (World p) Actor
  get_sender tx act =
      if tx.to =ᵇ tx.sender then pure act else in_context Context.get_actor (get_actor p tx.sender)

  -- `if tx.To != tx.From { SetActor(tx.From, from) }`
  unfoldable pub store_sender : Transaction → Actor → Exec (World p) (Unit {0})
  store_sender tx from =
      if tx.to =ᵇ tx.sender
      then pure tt
      else in_context Context.set_actor (set_actor p tx.sender from)

  -- What `ActorExec` does after a call that succeeded: `act` and `from` as the nonce's increment
  -- left them.
  unfoldable pub store_call : Transaction → Actor → Actor → Node → Value → Exec (World p) Receipt
  unfolding flush_memory store_sender
  store_call tx act from memory val = do
    nmemory ← flush_memory memory
    in_context Context.set_actor (set_actor p tx.to (record act { memory = some nmemory }))
    store_sender tx from
    pure (succeeded val)

  -- The end of `ActorExec`, by what the call came back with.
  unfoldable pub finish :
      Transaction → Actor → Actor → Outcome Value → Frame p → Outcome Receipt × World p
  unfolding store_call err_is_fatal
  finish tx act from (ok val) f = store_call tx act from f.memory val f.world
  finish tx act from (err e) f = if err_is_fatal e then (err e, f.world) else (ok reverted, f.world)
  finish tx act from panic f = (panic, f.world)

  -- The call itself, on the world and the memory that it may change.
  unfoldable pub call_contract : Transaction → Actor → Actor → Node → Exec (World p) Receipt
  unfolding finish
  call_contract tx act from memory w =
      let (r, f) = call p tx.sender tx.method tx.params (record { world = w; memory = memory }) in
      finish tx act from r f

  -- `ActorExec` from the look up of the code on.
  unfoldable pub run_contract : Transaction → Actor → Actor → Exec (World p) Receipt
  unfolding call_contract load_contract_state
  run_contract tx act from = do
    contract ← lift (wrapping Context.get_contract (get_contract act.code))
    memory ← in_context Context.state_load (load_contract_state act.memory)
    call_contract tx act from memory

  -- The receiver's actor after the increment, which it sees when both are one object.
  abbrev pub bumped : Transaction → Actor → Actor → Actor
  bumped tx act from = if tx.to =ᵇ tx.sender then bump_nonce from else act

  -- `ActorExec` from the test of the nonce on.
  unfoldable pub check_nonce : Transaction → Actor → Actor → Exec (World p) Receipt
  check_nonce tx act from =
      if not (from.nonce == tx.nonce)
      then fail (message Message.invalid_nonce)
      else run_contract tx (bumped tx act from) (bump_nonce from)

  -- `ActorExec`
  unfoldable pub actor_exec : Transaction → Exec (World p) Receipt
  actor_exec tx = do
    act ← in_context Context.get_actor (get_actor p tx.to)
    from ← get_sender tx act
    check_nonce tx act from

  -- `ActorCall`, on an operation that works on the memory.
  unfoldable pub actor_call :
      Address → (ℕ → Contract → Node → Exec (World p) (Unit {0} × Node)) → Exec (World p) (Unit {0})
  unfolding flush_memory load_contract_state
  actor_call a op = do
    act ← in_context Context.get_actor (get_actor p a)
    contract ← lift (wrapping Context.get_contract (get_contract act.code))
    memory ← in_context Context.state_load (load_contract_state act.memory)
    r ← op act.nonce contract memory
    nmemory ← flush_memory r.1
    in_context Context.set_actor (set_actor p a (record act { memory = some nmemory }))

  -- `ApplyTransactions`: it stops at the first transaction that fails.
  unfoldable pub apply_transactions : List Transaction → Exec (World p) (Unit {0})
  apply_transactions [] = pure tt
  apply_transactions (tx ∷ txs) = do actor_exec tx; apply_transactions txs
