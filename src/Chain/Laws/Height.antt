-- ===== src/Chain/Laws/Height.antt =====
-- The height of a mined block is a uint64.
use toychain.Prelude.{ℕ, ◌-◌, ◌^◌, ◌≤◌, ◌≡◌, some, List, arith, le→leb}
use toychain.Outcome.{ok, err, Context, Message, message, wrap}
use toychain.Types.Transaction.{Transaction}
use toychain.Types.Block.{Block, score}
use toychain.Platform.{Platform}
use toychain.Platform.Laws.{IsCid}
use toychain.Chain.Manager.{Manager}
use toychain.Chain.Validate.{check_block_valid, validate_block}
use toychain.Chain.Process.{after_validation, process_new_block}
use toychain.Chain.Miner.{Miner, get_next_block}
use toychain.Chain.Laws.Mining.{get_next_block-IsMined}

module _ (p : Platform) where
  -- A block that scores no more than the best one is refused before its parents are looked for.
  process_new_block-low :
      (fuel : ℕ) (b : Block) (m : Manager p)
      → score b ≤ score m.best_block
      → process_new_block p fuel b m
        ≡ some (err (wrap Context.validate (message Message.not_better)), m)
  unfolding process_new_block validate_block check_block_valid after_validation
  process_new_block-low fuel b m low = rw (le→leb (score b) (score m.best_block) low)

  module _ (order : List Transaction → List Transaction) where
    -- Where Cids are compared as bytes, a block that is mined on a block of the height 2^64 - 1 has the
    -- height 0, since the height is a uint64; and with any fuel every manager refuses it as no better
    -- than the best block, and stays as it is.
    pub last_height_refused :
        IsCid p
        → (miner : Miner) (m : Manager p) {nb : Block} → (get_next_block p order miner m).0 ≡ ok nb
        → miner.current_block.height ≡ 2 ^ 64 - 1
        → (nb.height ≡ 0)
          × ((fuel : ℕ) (other : Manager p)
              → process_new_block p fuel nb other
                ≡ some (err (wrap Context.validate (message Message.not_better)), other))
    last_height_refused laws miner m {nb} h last =
        let mined = get_next_block-IsMined p order laws miner m h in
        let wrapped : nb.height ≡ 0 = omega (arith, mined.height) in
        (
          wrapped,
          λ fuel other.
              process_new_block-low fuel nb other (unfold score in omega (arith, wrapped)),
        )
