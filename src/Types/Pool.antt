-- ===== src/Types/Pool.antt =====
-- `TransactionPool` of types/transaction_pool.go: a map from the key of a transaction's Cid.
use toychain.Prelude.{
  ◌≡◌, refl, Option, none, some, List, [], ◌∷◌, map, arith, ◌=ᵇ◌, =ᵇ→eq, =ᵇ-self, if◌then◌else◌,
}
use toychain.Outcome.{Outcome, ok, err, panic}
use toychain.Types.Value.{Cid}
use toychain.Types.Transaction.{Transaction}

abbrev pub Pool : Type 0
Pool = List (Cid × Transaction)

-- `NewTransactionPool`
abbrev pub empty_pool : Pool
empty_pool = []

abbrev pub lookup : Cid → Pool → Option Transaction
lookup c [] = none
lookup c ((d, tx) ∷ pool) = if d =ᵇ c then some tx else lookup c pool

-- `txs[c.KeyString()] = tx`
unfoldable pub insert : Cid → Transaction → Pool → Pool
insert c tx [] = (c, tx) ∷ []
insert c tx ((d, old) ∷ pool) = if d =ᵇ c then (c, tx) ∷ pool else (d, old) ∷ insert c tx pool

-- `ClearTx`: no entry keeps the key.
unfoldable pub clear_tx : Cid → Pool → Pool
clear_tx c [] = []
clear_tx c ((d, tx) ∷ pool) = let rest = clear_tx c pool in if d =ᵇ c then rest else (d, tx) ∷ rest

abbrev added : Outcome Cid → Transaction → Pool → Outcome Pool
added (ok c) tx pool = ok (insert c tx pool)
added (err e) tx pool = err e
added panic tx pool = panic

-- `Add`, given the Cid that the codec makes of a transaction.
unfoldable pub add : (Transaction → Outcome Cid) → Transaction → Pool → Outcome Pool
unfolding insert
add cid tx pool = added (cid tx) tx pool

-- `GetBestTxs`: all of them. Go iterates over a map in no fixed order, so the order is an argument.
unfoldable pub get_best_txs : (List Transaction → List Transaction) → Pool → List Transaction
get_best_txs order pool = order (map (λ e. e.1) pool)

-- An insertion is seen at its key and nowhere else.
pub lookup-insert :
    (c d : Cid) (tx : Transaction) (pool : Pool)
    → lookup d (insert c tx pool) ≡ (if c =ᵇ d then some tx else lookup d pool)
unfolding insert
lookup-insert c d tx [] = refl
lookup-insert c d tx ((e, old) ∷ pool) =
    ground (arith, lookup-insert c d tx pool, =ᵇ→eq e c, =ᵇ→eq e d, =ᵇ→eq c d, =ᵇ-self c, =ᵇ-self d)

-- A cleared key is gone, and every other one stays.
pub lookup-clear_tx :
    (c d : Cid) (pool : Pool)
    → lookup d (clear_tx c pool) ≡ (if c =ᵇ d then none else lookup d pool)
unfolding clear_tx
lookup-clear_tx c d [] = ground arith
lookup-clear_tx c d ((e, tx) ∷ pool) =
    ground (arith, lookup-clear_tx c d pool, =ᵇ→eq e c, =ᵇ→eq e d, =ᵇ→eq c d, =ᵇ-self c, =ᵇ-self d)
