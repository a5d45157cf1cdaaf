-- ===== src/Chain/Laws/Stocked.antt =====
-- The operations of the manager and the miner that only add to the block store.
use toychain.Prelude.{ℕ, ◌≡◌, refl, ap, ◌∙◌, inl, inr, Option, some, List, [], ◌∷◌, ◌++◌}
use toychain.Outcome.{Context, Outcome-cases}
use toychain.Exec.{lift, pure, ◌>>=◌, continue, >>=-keeps, >>=-relates}
use toychain.Types.Value.{Cid}
use toychain.Types.Address.{Address}
use toychain.Types.Transaction.{Transaction}
use toychain.Types.Block.{Block, Receipt}
use toychain.Types.Pool.{get_best_txs}
use toychain.Platform.{Platform}
use toychain.Platform.Laws.{IsHamt, IsActorCodec, IsBlockStore, Grows-refl, Grows-trans}
use toychain.Contract.World.{World, load_state, nonce_for_actor, get_actor}
use toychain.Contract.Execute.{actor_exec, flush_state}
use toychain.Contract.Laws.Growing.{Extends, Extends-trans, flush_state-Extends, actor_exec-Extends}
use toychain.Chain.Manager.{Manager, block_cid, load_root, add_to_dag, state_of}
use toychain.Chain.Process.{inform_tx}
use toychain.Chain.Miner
use toychain.Chain.Miner.{
  Miner, contract_addr, in_manager, on_state, exec_all, fill_block, next_block, reward_tx,
  get_next_block,
}
use toychain.Chain.Laws.Advance.{inform_tx-keeps}
use toychain.Chain.Laws.Refines.{load_state-loads}
use toychain.Chain.Laws.Solvent.{Stocked}

module _ (p : Platform) where
  pub Stocked-refl : (m : Manager p) → Stocked p m m
  Stocked-refl m = record { store = Grows-refl p m.store; known = refl; root = refl }

  pub Stocked-trans : (a b c : Manager p) → Stocked p a b → Stocked p b c → Stocked p a c
  Stocked-trans a b c f g = record {
    store = Grows-trans p a.store b.store c.store f.store g.store;
    known = g.known ∙ f.known;
    root = g.root ∙ f.root;
  }

  -- The part of the manager on which its ledgers stand.
  abbrev Bank : Type 0
  Bank = p.Store × List Cid × p.Node

  abbrev bank_of : Manager p → Bank
  bank_of m = (m.store, m.known_good_blocks, m.state_root)

  same-Stocked : (m m' : Manager p) → bank_of m' ≡ bank_of m → Stocked p m m'
  same-Stocked m m' same =
      let store : m'.store ≡ m.store = ap (λ b. b.0) same in
      record {
        store = rw store (Grows-refl p m.store);
        known = ap (λ b. b.1) same;
        root = ap (λ b. b.2) same;
      }

  pub inform_tx-Stocked : (tx : Transaction) (m : Manager p) → Stocked p m (inform_tx p tx m).1
  inform_tx-Stocked tx m =
      same-Stocked m (inform_tx p tx m).1 (inform_tx-keeps p bank_of (λ m pool. refl) tx m)

  pub add_to_dag-Stocked :
      (blocks : IsBlockStore p) (b : Block) (m : Manager p) → Stocked p m (add_to_dag p b m).1
  unfolding add_to_dag
  add_to_dag-Stocked blocks b m = record {
    store = blocks.add_grows b m.store;
    known = refl;
    root = refl;
  }

module _ (p : Platform) (laws : IsHamt p) (codec : IsActorCodec p) where
  exec_all-Extends :
      (txs : List Transaction) (receipts : List Receipt) (w : World p)
      → Extends p w (exec_all p txs receipts w).1
  unfolding exec_all
  exec_all-Extends [] receipts w = Grows-refl p w.store
  exec_all-Extends (tx ∷ txs) receipts w =
      >>=-relates (Extends p) (Miner.in_context p Context.mined_state (actor_exec p tx))
        (λ r. exec_all p txs (receipts ++ r ∷ [])) (Extends-trans p)
        (actor_exec-Extends p laws codec tx) (λ r. exec_all-Extends txs (receipts ++ r ∷ [])) w

  fill_block-Extends : (nb : Block) (w : World p) → Extends p w (fill_block p nb w).1
  unfolding fill_block
  fill_block-Extends nb =
      let flush = Miner.in_context p Context.flush_state (flush_state p) in
      let filled = λ (receipts : List Receipt) (c : Cid).
        pure {S = World p} (record nb { receipts = receipts; state_root = some c }) in
      >>=-relates (Extends p) (exec_all p nb.txs []) (λ receipts. flush >>= filled receipts)
        (Extends-trans p) (exec_all-Extends nb.txs [])
        (λ receipts.
          >>=-relates (Extends p) flush (filled receipts) (Extends-trans p)
            (flush_state-Extends p laws codec) (λ c w. Grows-refl p w.store))

  load-Stocked :
      (r : Option Cid) (nb : Block) (m : Manager p)
      → Stocked p m ((load_root p r >>= λ w. on_state p w (fill_block p nb)) m).1
  unfolding load_root
  load-Stocked r nb m = elim (Outcome-cases (load_state p m.store r)) [
    | inl (w, e) ↦
        let (n, _, same) = load_state-loads p m.store r w e in
        let store : m.store ≡ w.store = ap (λ (w : World p). w.store) same in
        rw (e, continue)
          (record { store = rw store (fill_block-Extends nb w); known = refl; root = refl })
    | inr (inl (x, e)) ↦ rw (e, continue) (Stocked-refl p m)
    | inr (inr e) ↦ rw (e, continue) (Stocked-refl p m)
  ]

  nonce-store : (a : Address) (w : World p) → (nonce_for_actor p a w).1.store ≡ w.store
  unfolding nonce_for_actor get_actor
  nonce-store a =
      >>=-keeps (λ (w : World p). w.store) (get_actor p a) (λ act. pure act.nonce) (λ w. refl)
        (λ act w. refl)

  pub get_next_block-Stocked :
      (order : List Transaction → List Transaction) (miner : Miner) (m : Manager p)
      → Stocked p m (get_next_block p order miner m).1
  unfolding get_next_block
  get_next_block-Stocked order miner m =
      let txs = get_best_txs order m.tx_pool in
      let nb = λ (nonce : ℕ) (c : Cid).
        next_block miner.current_block c (reward_tx miner.miner_address nonce ∷ txs) in
      let fill = λ (nonce : ℕ) (c : Cid). load_root p miner.current_block.state_root >>= λ w.
      on_state p w (fill_block p (nb nonce c)) in
      let cid = lift (block_cid p miner.current_block) in
      >>=-relates (Stocked p) (in_manager p (nonce_for_actor p contract_addr))
        (λ nonce. cid >>= fill nonce) (Stocked-trans p)
        (λ m. same-Stocked p m (in_manager p (nonce_for_actor p contract_addr) m).1 (
          ap (λ st. (st, m.known_good_blocks, m.state_root))
            (nonce-store contract_addr (state_of p m))))
        (λ nonce.
          >>=-relates (Stocked p) cid (fill nonce) (Stocked-trans p) (Stocked-refl p)
            (λ c. load-Stocked miner.current_block.state_root (nb nonce c)))
        m
