-- ===== src/Chain/Laws/Poison.antt =====
-- A transaction with an unknown method: in a block, in `ActorExec`, and in the miner's pool.
use mathlib.Core.HLevel.{⊥_prop}
use mathlib.Core.Path.{subst}
use mathlib.Core.Option.{some-injective, none-ne-some}
use mathlib.Core.Logic.Or
use mathlib.Core.List.{Mem, Perm, mem-cons, not-mem-nil}
use mathlib.Core.List.Perm
use toychain.Prelude.{
  ◌≡◌, ◌≢◌, sym, ◌∙◌, ap, false, some, List, [], ◌∷◌, ◌=ᵇ◌, Bool-cases, inl, inr, map,
}
use toychain.Outcome.{ok, err, Message, message}
use toychain.Exec.{◌>>=◌, >>=-eq-ok, lift}
use toychain.Types.Value.{Cid}
use toychain.Types.Transaction.{Transaction}
use toychain.Types.Block.{Block, Receipt}
use toychain.Types.Pool.{Pool, lookup, get_best_txs}
use toychain.Platform.{Platform, Actor}
use toychain.Contract.World.{World, Frame}
use toychain.Contract.Call.{call, transfer_name, get_balance_name}
use toychain.Contract.Execute.{
  actor_exec, apply_transactions, flush_state, bumped, bump_nonce, finish,
}
use toychain.Contract.Laws.Nonce.{actor_exec-Started}
use toychain.Contract.Laws.Writes.{call_contract-eq-finish}
use toychain.Chain.Miner.{Miner, get_next_block}
use toychain.Chain.Manager.{Manager}
use toychain.Chain.Validate.{check_block_state_change_valid, matches_root}
use toychain.Platform.Laws.{IsCid}
use toychain.Chain.Laws.Mining.{get_next_block-IsMined}

-- The method is none that the contract has.
pub record IsUnknown (tx : Transaction) : Type 0 where
  pub not_transfer : (tx.method =ᵇ transfer_name) ≡ false
  pub not_balance : (tx.method =ᵇ get_balance_name) ≡ false

module _ (p : Platform) where
  call-unknown :
      (tx : Transaction)
      → IsUnknown tx
      → (f : Frame p)
      → call p tx.sender tx.method tx.params f ≡ (err (message Message.method_not_found), f)
  unfolding call
  call-unknown tx u f = rw (u.not_transfer, u.not_balance)

  finish-fatal :
      (tx : Transaction) (act from : Actor) (f : Frame p) {r : Receipt}
      → (finish p tx act from (err (message Message.method_not_found)) f).0 ≢ ok r
  unfolding finish
  finish-fatal tx act from f h = cc

  -- A transaction with an unknown method never returns a receipt, in any world.
  pub actor_exec-unknown :
      (tx : Transaction) → IsUnknown tx → (w : World p) {r : Receipt} → (actor_exec p tx w).0 ≢ ok r
  actor_exec-unknown tx u w {r} h =
      let (s, reached) = actor_exec-Started p tx w h in
      let act = bumped p tx s.receiver s.sender in
      let from = bump_nonce s.sender in
      let f : Frame p = record { world = w; memory = s.memory } in
      let ended = reached ∙ call_contract-eq-finish p tx act from s.memory w in
      finish-fatal tx act from f {r = r} (cc (h, ended, call-unknown tx u f))

  apply_transactions-poisoned :
      (tx : Transaction) (txs : List Transaction) (w : World p) {u : Unit {0}}
      → IsUnknown tx
      → Mem tx txs
      → (apply_transactions p txs w).0 ≢ ok u
  apply_transactions-poisoned tx [] w bad m h = not-mem-nil m
  apply_transactions-poisoned tx (x ∷ txs) w {u} bad m h =
      let (r, e, r1) =
        >>=-eq-ok (actor_exec p x) (λ _. apply_transactions p txs) w {b = u}
          (unfold apply_transactions in h) in
      let later = apply_transactions-poisoned tx txs (actor_exec p x w).1 {u = u} bad in
      let rest : (apply_transactions p txs (actor_exec p x w).1).0 ≡ ok u =
        ap (λ y. y.0) (sym r1) ∙ unfold apply_transactions in h in
      Or.elim ⊥_prop (mem-cons.0 m)
        (λ same. actor_exec-unknown x (subst IsUnknown same bad) w {r = r} e)
        (λ further. later further rest)

  -- A block with a transaction whose method is unknown never passes the check of the validation.
  pub poisoned_block_fails :
      (tx : Transaction) (b : Block) (w : World p)
      → IsUnknown tx
      → Mem tx b.txs
      → (check_block_state_change_valid p b w).0 ≢ ok tt
  unfolding check_block_state_change_valid
  poisoned_block_fails tx b w bad m h =
      let (u, e, _) =
        >>=-eq-ok (apply_transactions p b.txs)
          (λ _. flush_state p >>= λ c.
            lift (p.equals (some c) b.state_root) >>= λ same. lift (matches_root p same))
          w {b = tt} h in
      apply_transactions-poisoned tx b.txs w {u = u} bad m e

  mem_of_lookup :
      (c : Cid) (pool : Pool) {tx : Transaction}
      → lookup c pool ≡ some tx
      → Mem tx (map (λ e. e.1) pool)
  mem_of_lookup c [] h = absurd (none-ne-some _ h)
  mem_of_lookup c ((d, old) ∷ pool) h = elim (Bool-cases (d =ᵇ c)) [
    | inl here ↦ mem-cons.1 (Or.inl (sym (some-injective _ _ (rw here at h))))
    | inr later ↦ mem-cons.1 (Or.inr (mem_of_lookup c pool (rw later at h)))
  ]

  -- Where Cids are compared as bytes, no block is mined while a transaction with an unknown method
  -- is in the pool, in whatever order the pool is listed.
  pub poisoned_pool_stops_mining :
      IsCid p
      → (order : List Transaction → List Transaction) → ((l : List Transaction) → Perm (order l) l)
      → (miner : Miner) (m : Manager p) (c : Cid) (tx : Transaction) (nb : Block)
      → lookup c m.tx_pool ≡ some tx
      → IsUnknown tx
      → (get_next_block p order miner m).0 ≢ ok nb
  poisoned_pool_stops_mining laws order lists miner m c tx nb found bad h =
      let mined = get_next_block-IsMined p order laws miner m {nb = nb} h in
      let listed =
        (Perm.mem_iff (lists (map (λ e. e.1) m.tx_pool))).1 (mem_of_lookup c m.tx_pool found) in
      let chosen : Mem tx (get_best_txs order m.tx_pool) = unfold get_best_txs in listed in
      poisoned_block_fails tx nb mined.before bad (rw (mined.txs) (mem-cons.1 (Or.inr chosen)))
        mined.checks
