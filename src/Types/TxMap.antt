-- ===== src/Types/TxMap.antt =====
-- The map that a pool is: pools that answer alike are one map, whatever the order of their entries.
use mathlib.Core.Quot
use mathlib.Core.Quot.{Quot, Quot-set}
use toychain.Prelude.{◌≡◌, ◌=ᵇ◌, arith, =ᵇ→eq, =ᵇ-self, false}
use toychain.Types.Value.{Cid}
use toychain.Types.Transaction.{Transaction}
use toychain.Types.Pool.{Pool, lookup, insert, lookup-insert}

abbrev pub AnswersAlike : Pool → Pool → Type 0
AnswersAlike a b = (c : Cid) → lookup c a ≡ lookup c b

abbrev pub TxMap : Type 0
TxMap = Quot AnswersAlike

abbrev pub map_of : Pool → TxMap
map_of pool = Quot.mk pool

-- Insertions under two keys may be exchanged.
pub insert_comm :
    (c d : Cid) (tx tx' : Transaction) (pool : Pool)
    → (c =ᵇ d) ≡ false
    → map_of (insert c tx (insert d tx' pool)) ≡ map_of (insert d tx' (insert c tx pool))
insert_comm c d tx tx' pool apart = Quot.sound λ e. ground (
  arith,
  lookup-insert c e tx (insert d tx' pool),
  lookup-insert d e tx' pool,
  lookup-insert d e tx' (insert c tx pool),
  lookup-insert c e tx pool,
  =ᵇ→eq c e,
  =ᵇ→eq d e,
  =ᵇ-self c,
  =ᵇ-self d,
  apart,
)
