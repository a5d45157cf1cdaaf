-- ===== src/Chain/Laws/Mining.antt =====
-- `getNextBlock` of state/miner.go: what a mined block holds, and the check of the validation on it.
use toychain.Prelude.{
  ℕ, ◌+◌, ◌%◌, ◌^◌, ◌≡◌, refl, sym, ◌∙◌, ap, some, List, [], ◌∷◌, =ᵇ-self, arith, length,
}
use mathlib.Core.Path.{subst}
use toychain.Outcome.{ok_injective, ok, Context, wrapping-eq-ok}
use toychain.Exec.{Exec, ◌>>=◌, >>=-eq-ok, lift, pure, continue}
use toychain.Types.Value.{Cid}
use toychain.Types.Address.{Address}
use toychain.Types.Transaction.{Transaction}
use toychain.Types.Block.{Block, Receipt}
use toychain.Types.Pool.{get_best_txs}
use toychain.Platform.{Platform, Actor}
use toychain.Platform.Laws.{IsCid}
use toychain.Contract.World.{World, nonce_for_actor, get_actor, load_state}
use toychain.Contract.Execute.{apply_transactions, flush_state}
use toychain.Contract.Laws.Actors.{actor_at}
use toychain.Chain.Laws.Batch.{exec_all-apply_transactions}
use toychain.Chain.Manager.{Manager, block_cid, state_of, load_root}
use toychain.Chain.Validate.{check_block_state_change_valid}
use toychain.Chain.Miner.{
  Miner, contract_addr, reward_tx, in_manager, in_context, exec_all, next_block, fill_block,
  on_state, get_next_block,
}

module _ (p : Platform) where
  -- The check passes where the transactions run and the flushed state has the block's root.
  pub check_passes :
      IsCid p
      → (b : Block) (w w' : World p) (c : Cid) → apply_transactions p b.txs w ≡ (ok tt, w')
      → (flush_state p w').0 ≡ ok c
      → b.state_root ≡ some c
      → check_block_state_change_valid p b w ≡ (ok tt, (flush_state p w').1)
  unfolding check_block_state_change_valid
  check_passes laws b w w' c ran flushed root =
      rw (ran, continue, flushed, root, laws.equals_some c c, =ᵇ-self c)

  -- The check that the validation makes accepts the block on the miner's starting state, and ends in
  -- the miner's state; there is a receipt for each transaction, and the header is as it was.
  abbrev pub Checks : Block → World p → World p → Block → Type 0
  Checks b w w' nb =
      (check_block_state_change_valid p nb w ≡ (ok tt, w'))
      × (length nb.receipts ≡ length nb.txs)
      × (nb.txs ≡ b.txs)
      × (nb.height ≡ b.height)
      × (nb.parent ≡ b.parent)

  fill_block-Checks :
      IsCid p
      → (b : Block) (w : World p) {nb : Block} → (fill_block p b w).0 ≡ ok nb
      → Checks b w (fill_block p b w).1 nb
  unfolding fill_block
  fill_block-Checks laws b w {nb} h =
      let flush = in_context p Context.flush_state (flush_state p) in
      let fill : List Receipt → Cid → Exec (World p) Block =
        λ rs c. pure (record b { receipts = rs; state_root = some c }) in
      let (rs, e1, r1) = >>=-eq-ok (exec_all p b.txs []) (λ rs. flush >>= fill rs) w {b = nb} h in
      let w' = (exec_all p b.txs [] w).1 in
      let (c, e2, r2) = >>=-eq-ok flush (fill rs) w' {b = nb} (cc (h, r1)) in
      let filled : Block = record b { receipts = rs; state_root = some c } in
      let flushed = wrapping-eq-ok Context.flush_state (flush_state p w').0 e2 in
      let end : fill_block p b w ≡ (ok filled, (flush_state p w').1) = r1 ∙ r2 in
      let same : filled ≡ nb = ok_injective (cc (h, end)) in
      let (ran, count) = exec_all-apply_transactions p b.txs w {rs = rs} e1 in
      subst (Checks b w (fill_block p b w).1) same (
        check_passes laws filled w w' c ran flushed refl ∙ ap (λ x. (ok tt, x.1)) (sym end),
        omega (arith, count),
        refl,
        refl,
        refl,
      )

  pub nonce_for_actor-steps :
      (a : Address) (w : World p) (n : ℕ)
      → (nonce_for_actor p a w).0 ≡ ok n
      → (act : Actor) × (actor_at p w a ≡ ok act) × (act.nonce ≡ n)
  unfolding nonce_for_actor actor_at
  nonce_for_actor-steps a w n h =
      let (act, e, r) = >>=-eq-ok (get_actor p a) (λ act. pure act.nonce) w {b = n} h in
      (act, e, ok_injective (cc (h, r)))

module _ (p : Platform) (order : List Transaction → List Transaction) where
  -- A mined block stands one above the current block, names it as its parent, and pays the reward
  -- first, with the contract's nonce; then come the transactions of the pool. It has a receipt for
  -- each, and the validation's check accepts it on the current block's state.
  pub record IsMined (miner : Miner) (m : Manager p) (nb : Block) : Type 0 where
    pub parent_cid : Cid
    pub is_parent : block_cid p miner.current_block ≡ ok parent_cid
    pub parent : nb.parent ≡ some parent_cid
    pub height : nb.height ≡ (miner.current_block.height + 1) % 2 ^ 64
    pub contract : Actor
    pub is_contract : actor_at p (state_of p m) contract_addr ≡ ok contract
    pub txs : nb.txs ≡ reward_tx miner.miner_address contract.nonce ∷ get_best_txs order m.tx_pool
    pub receipts : length nb.receipts ≡ length nb.txs
    pub before : World p
    pub loaded : load_state p m.store miner.current_block.state_root ≡ ok before
    pub checks : (check_block_state_change_valid p nb before).0 ≡ ok tt

  nonce_for_actor-world : (a : Address) (w : World p) → (nonce_for_actor p a w).1 ≡ w
  unfolding nonce_for_actor
  nonce_for_actor-world a w = ground arith

  -- Where Cids are compared as bytes, a block that `getNextBlock` returns has the current block's
  -- Cid as parent and the next height modulo 2^64, pays the reward with the contract's nonce and
  -- then lists the pool, has a receipt for each transaction, and passes the check of the
  -- validation on the current block's state.
  pub get_next_block-IsMined :
      IsCid p
      → (miner : Miner) (m : Manager p) {nb : Block} → (get_next_block p order miner m).0 ≡ ok nb
      → IsMined miner m nb
  unfolding get_next_block load_root
  get_next_block-IsMined laws miner m {nb} h =
      let current = miner.current_block in
      let build : ℕ → Cid → Block = λ nonce c.
        next_block current c (reward_tx miner.miner_address nonce ∷ get_best_txs order m.tx_pool) in
      let fill : ℕ → Cid → World p → Exec (Manager p) Block =
        λ nonce c w. on_state p w (fill_block p (build nonce c)) in
      let load : ℕ → Cid → Exec (Manager p) Block =
        λ nonce c. load_root p current.state_root >>= fill nonce c in
      let (nonce, e1, r1) =
        >>=-eq-ok (in_manager p (nonce_for_actor p contract_addr))
          (λ nonce. lift (block_cid p current) >>= load nonce) m {b = nb} h in
      let (act, is_act, is_nonce) = nonce_for_actor-steps p contract_addr (state_of p m) nonce e1 in
      let m' = (in_manager p (nonce_for_actor p contract_addr) m).1 in
      let (c, e2, r2) =
        >>=-eq-ok (lift (block_cid p current)) (load nonce) m' {b = nb} (cc (h, r1)) in
      let (w, e3, r3) =
        >>=-eq-ok (load_root p current.state_root) (fill nonce c) m' {b = nb} (cc (h, r1, r2)) in
      let filled : (fill_block p (build nonce c) w).0 ≡ ok nb =
        ap (λ x. x.0) (sym (r1 ∙ r2 ∙ r3)) ∙ h in
      let (check, count, same_txs, same_height, same_parent) =
        fill_block-Checks p laws (build nonce c) w {nb = nb} filled in
      record {
        parent_cid = c;
        is_parent = e2;
        parent = same_parent;
        height = same_height;
        contract = act;
        is_contract = is_act;
        txs =
            same_txs
            ∙ ap (λ n. reward_tx miner.miner_address n ∷ get_best_txs order m.tx_pool)
                (sym is_nonce);
        receipts = count;
        before = w;
        loaded =
            ap (λ (x : World p). load_state p x.store current.state_root)
              (sym (nonce_for_actor-world contract_addr (state_of p m)))
            ∙ e3;
        checks = ap (λ x. x.0) check;
      }
