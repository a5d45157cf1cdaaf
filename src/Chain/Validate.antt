-- ===== src/Chain/Validate.antt =====
-- `validateBlock` of state/state_manager.go and the functions that it calls.
use mathlib.Core.Option
use toychain.Prelude.{
  ℕ, zero, suc, Bool, true, false, Option, none, some, List, [], ◌∷◌, leb, if◌then◌else◌,
}
use toychain.Outcome
use toychain.Outcome.{Outcome, ok, err, panic, Error, Context, wrapping, Message, message}
use toychain.Exec.{Exec, lift, ◌>>=◌, ◌>>◌}
use toychain.Types.Value.{Cid}
use toychain.Types.Block.{Block, score}
use toychain.Platform.{Platform}
use toychain.Contract.World.{World, load_state}
use toychain.Contract.Execute.{apply_transactions, flush_state}
use toychain.Chain.Manager.{Manager, has, block_cid}

module _ (p : Platform) where
  open p use {Store, equals, get_block}

  -- `checkBlockValid`, which checks nothing.
  unfoldable pub check_block_valid : Block → Outcome (Unit {0})
  check_block_valid b = ok tt

  -- `fetchBlock`
  unfoldable pub fetch_block : Store → Option Cid → Outcome Block
  fetch_block st c = get_block st c

  abbrev pub matches_root : Bool → Outcome (Unit {0})
  matches_root true = ok tt
  matches_root false = err (message Message.state_root_mismatch)

  -- `checkBlockStateChangeValid`
  unfoldable pub check_block_state_change_valid : Block → Exec (World p) (Unit {0})
  check_block_state_change_valid b = do
    apply_transactions p b.txs
    c ← flush_state p
    same ← lift (equals (some c) b.state_root)
    lift (matches_root same)

  -- The blocks that the first loop of `validateBlock` collects, the oldest first, and the known block
  -- below them. `none` means that the fuel ran out: the source sets no limit.
  abbrev pub Walk : Type 0
  Walk = Option (Outcome (Block × List Block))

  module _ (st : Store) (known : List Cid) where
    -- One round's fetch and check of the parent.
    unfoldable pub parent_of : Block → Outcome Block
    unfolding fetch_block check_block_valid
    parent_of b =
        Outcome.◌>>=◌ (wrapping Context.fetch_block (fetch_block st b.parent))
          λ next. Outcome.◌>>=◌ (check_block_valid next) λ _. ok next

    unfoldable pub walk : ℕ → Block → List Block → Walk
    walk zero base validating = none
    walk (suc fuel) base validating = elim (block_cid p base) [
      | ok c ↦ elim (has c known) [
        | true ↦ some (ok (base, validating))
        | false ↦ elim (parent_of base) [
          | ok next ↦ walk fuel next (base ∷ validating)
          | err e ↦ some (err e)
          | panic ↦ some panic
        ]
      ]
      | err e ↦ some (err e)
      | panic ↦ some panic
    ]

  -- The loop that executes the collected blocks, and marks each one that passed as known.
  unfoldable pub execute_blocks :
      List Block → World p → List Cid → Outcome (Unit {0}) × World p × List Cid
  execute_blocks [] w known = (ok tt, w, known)
  execute_blocks (b ∷ bs) w known =
      let (r, w') = check_block_state_change_valid b w in
      elim r [
        | ok _ ↦ elim (block_cid p b) [
          | ok c ↦ execute_blocks bs w' (c ∷ known)
          | err e ↦ (err e, w', known)
          | panic ↦ (panic, w', known)
        ]
        | err e ↦ (err e, w', known)
        | panic ↦ (panic, w', known)
      ]

  -- `validateBlock` from the load of the base's state on.
  unfoldable pub validate_from : Block → List Block → Exec (Manager p) (Unit {0})
  unfolding load_state
  validate_from base blocks m =
      elim (wrapping Context.load_state (load_state p m.store base.state_root)) [
        | ok w ↦
            let (r, w', known) = execute_blocks blocks w m.known_good_blocks in
            (r, record m { store = w'.store; known_good_blocks = known })
        | err e ↦ (err e, m)
        | panic ↦ (panic, m)
      ]

  abbrev pub after_walk : Manager p → Outcome (Block × List Block) → Outcome (Unit {0}) × Manager p
  after_walk m (ok (base, blocks)) = validate_from base blocks m
  after_walk m (err e) = (err e, m)
  after_walk m panic = (panic, m)

  -- `validateBlock`
  unfoldable pub validate_block : ℕ → Block → Manager p → Option (Outcome (Unit {0}) × Manager p)
  unfolding score check_block_valid
  validate_block fuel b m = elim (wrapping Context.check_block (check_block_valid b)) [
    | ok _ ↦
        if leb (score b) (score m.best_block)
        then some (err (message Message.not_better), m)
        else Option.map (after_walk m) (walk m.store m.known_good_blocks fuel b [])
    | err e ↦ some (err e, m)
    | panic ↦ some (panic, m)
  ]
