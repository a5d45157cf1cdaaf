-- ===== src/Chain/Laws/Batch.antt =====
-- The two loops over a block's transactions: the miner's in `getNextBlock`, and `ApplyTransactions`,
-- which the validation runs.
use toychain.Prelude.{
  ℕ, ◌+◌, ◌≡◌, refl, sym, ap, ◌∙◌, List, [], ◌∷◌, ◌++◌, length, length-append, arith,
}
use mathlib.Core.Path.{subst}
use toychain.Outcome.{Outcome, ok, err, panic, Error, Context, wrap, ok_injective}
use toychain.Exec.{continue}
use toychain.Types.Transaction.{Transaction}
use toychain.Types.Block.{Receipt}
use toychain.Platform.{Platform}
use toychain.Contract.World.{World}
use toychain.Contract.Execute.{actor_exec, apply_transactions}
use toychain.Chain.Miner.{exec_all}

-- Both loops come to an end with `n` receipts, or both fail with the same error, which the miner
-- wraps, or both panic.
pub data Alike (n : ℕ) : Outcome (Unit {0}) → Outcome (List Receipt) → Type 0 where
  both_return : (rs : List Receipt) → length rs ≡ n → Alike n (ok tt) (ok rs)
  both_fail : (e : Error) → Alike n (err e) (err (wrap Context.mined_state e))
  both_panic : Alike n panic panic

module _ (p : Platform) where
  pub record Agree (n : ℕ) (a : Outcome (Unit {0}) × World p) (b : Outcome (List Receipt) × World p)
      : Type 0 where
    pub results : Alike n a.0 b.0
    pub worlds : a.1 ≡ b.1

  -- One transaction ran to `r`; the rest of each loop follows.
  step_agrees :
      (n : ℕ) (tx : Transaction) (txs : List Transaction) (receipts : List Receipt) (w : World p)
      (r : Outcome Receipt)
      → (actor_exec p tx w).0 ≡ r
      → ((receipt : Receipt)
          → Agree n
              (apply_transactions p txs (actor_exec p tx w).1)
              (exec_all p txs (receipts ++ receipt ∷ []) (actor_exec p tx w).1))
      → Agree n (apply_transactions p (tx ∷ txs) w) (exec_all p (tx ∷ txs) receipts w)
  unfolding apply_transactions exec_all
  step_agrees n tx txs receipts w (ok r) e rest = rw (e, continue) (rest r)
  step_agrees n tx txs receipts w (err x) e rest =
      rw (e, continue) (record { results = both_fail x; worlds = refl })
  step_agrees n tx txs receipts w panic e rest =
      rw (e, continue) (record { results = both_panic; worlds = refl })

  exec_all_from :
      (txs : List Transaction) (receipts : List Receipt) (w : World p)
      → Agree
          (length receipts + length txs)
          (apply_transactions p txs w)
          (exec_all p txs receipts w)
  unfolding apply_transactions exec_all
  exec_all_from [] receipts w = record {
    results = both_return receipts (omega arith);
    worlds = refl;
  }
  exec_all_from (tx ∷ txs) receipts w =
      step_agrees (length receipts + length (tx ∷ txs)) tx txs receipts w (actor_exec p tx w).0 refl
        (λ r.
          subst
            (λ n.
              Agree n (apply_transactions p txs (actor_exec p tx w).1)
                (exec_all p txs (receipts ++ r ∷ []) (actor_exec p tx w).1))
            (omega (arith, length-append receipts (r ∷ [])))
            (exec_all_from txs (receipts ++ r ∷ []) (actor_exec p tx w).1))

  -- The miner's loop and `ApplyTransactions` run the same transactions on the same state alike: both
  -- return, the miner's with a receipt for each transaction, or both fail with the same error, which
  -- the miner wraps, or both panic; and they leave the same state, in each of these cases.
  pub exec_all_agrees :
      (txs : List Transaction) (w : World p)
      → Agree (length txs) (apply_transactions p txs w) (exec_all p txs [] w)
  exec_all_agrees txs w =
      subst (λ n. Agree n (apply_transactions p txs w) (exec_all p txs [] w)) (omega arith)
        (exec_all_from txs [] w)

  Alike-ok :
      {n : ℕ} {a : Outcome (Unit {0})} {b : Outcome (List Receipt)} (rs : List Receipt)
      → Alike n a b
      → b ≡ ok rs
      → (a ≡ ok tt) × (length rs ≡ n)
  Alike-ok rs (both_return rs' count) h = (refl, sym (ap (λ l. length l) (ok_injective h)) ∙ count)
  Alike-ok rs (both_fail e) h = cc h
  Alike-ok rs both_panic h = cc h

  -- Where the miner's loop returns, so does `ApplyTransactions`, in the same state.
  pub exec_all-apply_transactions :
      (txs : List Transaction) (w : World p) {rs : List Receipt}
      → (exec_all p txs [] w).0 ≡ ok rs
      → (apply_transactions p txs w ≡ (ok tt, (exec_all p txs [] w).1)) × (length rs ≡ length txs)
  exec_all-apply_transactions txs w {rs} h =
      let a = exec_all_agrees txs w in
      let (ran, count) = Alike-ok rs a.results h in
      (ap (λ o. (o, (apply_transactions p txs w).1)) ran ∙ ap (λ x. (ok tt, x)) a.worlds, count)
