-- ===== src/Chain/Laws/Money.antt =====
-- The sum of the token contract's ledger along a chain of blocks.
use toychain.Prelude.{ℕ, ap, List, All}
use mathlib.Core.Path.{subst}
use toychain.Types.Address.{Address}
use toychain.Types.Block.{Block}
use toychain.Platform.{Platform}
use toychain.Platform.Laws.{IsHamt, IsActorCodec}
use toychain.Contract.World.{World}
use toychain.Contract.Execute.{flush_state}
use toychain.Contract.Laws.Supply.{IsDistinct}
use toychain.Contract.Laws.Reading.{IsOrdinary}
use toychain.Contract.Laws.Conserve.{HasTotal, apply_transactions-HasTotal}
use toychain.Contract.Laws.Flushed.{Answers-HasTotal, flush_state-Answers}
use toychain.Chain.Valid.{Moves, Replays, stays, moves}

-- Every transaction of the block is ordinary.
abbrev pub IsOrdinaryBlock : Address → List Address → Block → Type 0
IsOrdinaryBlock contract accounts b = All (IsOrdinary contract accounts) b.txs

module _ (p : Platform) (laws : IsHamt p) (codec : IsActorCodec p) (contract : Address)
    (accounts : List Address) (sum : ℕ) (distinct : IsDistinct accounts) where
  -- The state before the flush has the sum.
  pub ran-HasTotal :
      (w w' : World p) (b : Block) (m : Moves p w b w')
      → IsOrdinaryBlock contract accounts b
      → HasTotal p w contract accounts sum
      → HasTotal p m.ran contract accounts sum
  ran-HasTotal w w' b m ordinary t =
      subst (λ r. HasTotal p r.1 contract accounts sum) m.runs
        (apply_transactions-HasTotal p laws codec contract accounts sum b.txs w distinct ordinary t
          (ap (λ r. r.0) m.runs))

  pub Moves-HasTotal :
      (w w' : World p) (b : Block)
      → Moves p w b w'
      → IsOrdinaryBlock contract accounts b
      → HasTotal p w contract accounts sum
      → HasTotal p w' contract accounts sum
  Moves-HasTotal w w' b m ordinary t =
      subst (λ r. HasTotal p r.1 contract accounts sum) m.flushes
        (Answers-HasTotal p m.ran (flush_state p m.ran).1 contract accounts sum
          (flush_state-Answers p laws m.ran m.root (ap (λ r. r.0) m.flushes))
          (ran-HasTotal w w' b m ordinary t))

  -- By the laws of the HAMT and of an actor's JSON form, blocks of ordinary transactions that run one
  -- after the other to the states that they name keep the sum of the contract's ledger over any
  -- distinct accounts.
  pub Replays-HasTotal :
      {w u : World p} {bs : List Block}
      → Replays p w bs u
      → All (IsOrdinaryBlock contract accounts) bs
      → HasTotal p w contract accounts sum
      → HasTotal p u contract accounts sum
  Replays-HasTotal (stays w) ordinary t = t
  Replays-HasTotal (moves {w} {v} {u} {b} {bs} m rest) ordinary t =
      Replays-HasTotal rest ordinary.1 (Moves-HasTotal w v b m ordinary.0 t)
