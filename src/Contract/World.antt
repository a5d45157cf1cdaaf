-- ===== src/Contract/World.antt =====
-- The objects that a call of a contract works on, and the accessors of contract/state.go.
--
-- `State` of the source is a HAMT root beside the block store that it shares with everything else;
-- `ContractState` is a second HAMT, the memory of the actor that is called.
use toychain.Prelude.{ℕ, Option, Bytes}
use toychain.Outcome.{Outcome, ok, err, panic, Context, wrapping}
use toychain.Exec.{Exec, pure, lift, ◌>>=◌}
use toychain.Types.Value.{Cid}
use toychain.Types.Address.{Address}
use toychain.Platform.{Platform, Actor}

module _ (p : Platform) where
  open p use {Store, Node, new_node, find, set, load, copy, marshal_actor, unmarshal_actor}

  pub record World : Type 0 where
    pub store : Store
    pub root : Node

  -- The `State` and the `ContractState` of a `CallContext`.
  pub record Frame : Type 0 where
    pub world : World
    pub memory : Node

  -- `LoadState`
  unfoldable pub load_state : Store → Option Cid → Outcome World
  load_state st c = elim (load st c) [
    | ok n ↦ ok (record { store = st; root = n })
    | err e ↦ err e
    | panic ↦ panic
  ]

  -- `NewState`, over a root.
  abbrev pub new_state : Store → Node → World
  new_state st n = record { store = st; root = n }

  -- `State.Copy`; the copy shares the store.
  abbrev pub copy_state : World → World
  copy_state w = record w { root = copy w.root }

  -- `State.NewContractState`, and the memory that it starts with.
  abbrev pub new_contract_state : World → Frame
  new_contract_state w = record { world = w; memory = new_node }

  -- What `loadActor` makes of the data that it found.
  abbrev pub read_actor : Outcome Bytes → Outcome Actor
  read_actor (ok data') = wrapping Context.invalid_account (unmarshal_actor data')
  read_actor (err e) = err e
  read_actor panic = panic

  -- `loadActor`
  unfoldable pub load_actor : Store → Node → Address → Outcome Actor
  load_actor st n a = read_actor (find st n a)

  -- `State.GetActor`
  unfoldable pub get_actor : Address → Exec World Actor
  unfolding load_actor
  get_actor a w = (load_actor w.store w.root a, w)

  -- `root.Set`
  unfoldable pub set_root : Address → Bytes → Exec World (Unit {0})
  set_root a data' w = let (r, n) = set w.store a data' w.root in (r, record w { root = n })

  -- `State.SetActor`
  unfoldable pub set_actor : Address → Actor → Exec World (Unit {0})
  unfolding set_root
  set_actor a act = do data' ← lift (marshal_actor act); set_root a data'

  -- `State.NonceForActor`
  unfoldable pub nonce_for_actor : Address → Exec World ℕ
  unfolding get_actor
  nonce_for_actor a = do act ← get_actor a; pure act.nonce

  -- A call on the `State` of a `CallContext`.
  abbrev pub in_world : {A : Type 0} → Exec World A → Exec Frame A
  in_world m f = let (r, w) = m f.world in (r, record f { world = w })

  -- `ContractState.Get`
  unfoldable pub get_key : Bytes → Exec Frame Bytes
  get_key k f = (find f.world.store f.memory k, f)

  -- `ContractState.Set`
  unfoldable pub set_key : Bytes → Bytes → Exec Frame (Unit {0})
  set_key k v f = let (r, n) = set f.world.store k v f.memory in (r, record f { memory = n })
