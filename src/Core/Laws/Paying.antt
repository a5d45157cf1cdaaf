-- ===== src/Core/Laws/Paying.antt =====
-- The ledgers of the manager's states through a round of the miner, and `SendNewBlock`.
use mathlib.Core.Option.{some-injective}
use toychain.Prelude.{ℕ, ◌≡◌, refl, some, List, map-eq-some}
use toychain.Outcome.{Outcome, ok, err, panic}
use toychain.Types.Value.{Cid}
use toychain.Types.Address.{Address}
use toychain.Types.Transaction.{Transaction}
use toychain.Types.Block.{Block}
use toychain.Platform.{Platform}
use toychain.Platform.Laws.{IsHamt, IsActorCodec, IsCid, IsBlockStore}
use toychain.Contract.Laws.Supply.{IsDistinct}
use toychain.Chain.Manager.{Manager, block_cid, add_to_dag}
use toychain.Chain.Process.{process_new_block}
use toychain.Chain.Miner.{
  Miner, Event, cancelled, block_found, new_block, get_next_block, after_callback, after_mining,
  run_round,
}
use toychain.Chain.Laws.Solvent.{Sustains, Stocked-Sustains}
use toychain.Chain.Laws.Solvency.{process_new_block-Solvent}
use toychain.Chain.Laws.Stocked.{add_to_dag-Stocked, get_next_block-Stocked}
use toychain.Core.Node.{then_publish, after_dag, with_node, send_new_block}

module _ (p : Platform) where
  then_publish-manager :
      (publish : Block → Outcome (Unit {0})) (b : Block) (r : Outcome (Unit {0}) × Manager p)
      → (then_publish p publish b r).1 ≡ r.1
  then_publish-manager publish b (ok u, m) = refl
  then_publish-manager publish b (err e, m) = refl
  then_publish-manager publish b (panic, m) = refl

  after_callback-manager :
      (order : List Transaction → List Transaction) (miner : Miner) (nb : Block)
      (r : Outcome (Unit {0}) × Manager p)
      → (after_callback p order miner nb r).1 ≡ r.1
  after_callback-manager order miner nb (ok u, m) = refl
  after_callback-manager order miner nb (err e, m) = refl
  after_callback-manager order miner nb (panic, m) = refl

module _ (p : Platform) (laws : IsHamt p) (codec : IsActorCodec p) (cids : IsCid p)
    (blocks : IsBlockStore p) (contract : Address) (accounts : List Address) (sum : ℕ)
    (distinct : IsDistinct accounts) where
  abbrev Safe : Manager p → Manager p → Type 0
  Safe = Sustains p contract accounts sum

  same-Safe : (m : Manager p) → Safe m m
  same-Safe m ordinary s = s

  after_dag-Safe :
      (publish : Block → Outcome (Unit {0})) (fuel : ℕ) (b : Block)
      (added : Outcome (Unit {0}) × Manager p) {r : Outcome (Unit {0}) × Manager p}
      → after_dag p publish fuel b added ≡ some r
      → Safe added.1 r.1
  after_dag-Safe publish fuel b (ok u, m) {r} h =
      let (v, e, same) =
        map-eq-some (then_publish p publish b) (process_new_block p fuel b m) {b = r} h in
      rw (← same, then_publish-manager p publish b v)
        (process_new_block-Solvent p contract accounts sum blocks laws codec cids distinct fuel b m
          {r = v} e)
  after_dag-Safe publish fuel b (err x, m) h = rw (← some-injective _ _ h) (same-Safe m)
  after_dag-Safe publish fuel b (panic, m) h = rw (← some-injective _ _ h) (same-Safe m)

  with_node-Safe :
      (publish : Block → Outcome (Unit {0})) (fuel : ℕ) (b : Block) (m : Manager p)
      (c : Outcome Cid) {r : Outcome (Unit {0}) × Manager p}
      → with_node p publish fuel b m c ≡ some r
      → Safe m r.1
  with_node-Safe publish fuel b m (ok c) {r} h =
      let added = add_to_dag p b m in
      Stocked-Sustains p contract accounts sum m added.1 r.1 (add_to_dag-Stocked p blocks b m)
        (after_dag-Safe publish fuel b added {r = r} h)
  with_node-Safe publish fuel b m (err x) h = rw (← some-injective _ _ h) (same-Safe m)
  with_node-Safe publish fuel b m panic h = rw (← some-injective _ _ h) (same-Safe m)

  send_new_block-Safe :
      (publish : Block → Outcome (Unit {0})) (fuel : ℕ) (b : Block) (m : Manager p)
      {r : Outcome (Unit {0}) × Manager p}
      → send_new_block p publish fuel b m ≡ some r
      → Safe m r.1
  unfolding send_new_block
  send_new_block-Safe publish fuel b m {r} h =
      with_node-Safe publish fuel b m (block_cid p b) {r = r} h

  module _ (order : List Transaction → List Transaction)
      (publish : Block → Outcome (Unit {0})) where
    after_mining-Safe :
        (fuel : ℕ) (miner : Miner) (made : Outcome Block × Manager p)
        {r : Outcome Miner × Manager p}
        → after_mining p order (send_new_block p publish fuel) miner made ≡ some r
        → Safe made.1 r.1
    after_mining-Safe fuel miner (ok nb, m) {r} h =
        let (v, e, same) =
          map-eq-some (after_callback p order miner nb) (send_new_block p publish fuel nb m) {b = r}
            h in
        rw (← same, after_callback-manager p order miner nb v)
          (send_new_block-Safe publish fuel nb m {r = v} e)
    after_mining-Safe fuel miner (err e, m) h = rw (← some-injective _ _ h) (same-Safe m)
    after_mining-Safe fuel miner (panic, m) h = rw (← some-injective _ _ h) (same-Safe m)

    pub run_round-Safe :
        (fuel : ℕ) (e : Event) (miner : Miner) (m : Manager p) {r : Outcome Miner × Manager p}
        → run_round p order (send_new_block p publish fuel) e miner m ≡ some r
        → Safe m r.1
    unfolding run_round
    run_round-Safe fuel cancelled miner m h = rw (← some-injective _ _ h) (same-Safe m)
    run_round-Safe fuel block_found miner m {r} h =
        let made = get_next_block p order miner m in
        Stocked-Sustains p contract accounts sum m made.1 r.1
          (get_next_block-Stocked p laws codec order miner m)
          (after_mining-Safe fuel miner made {r = r} h)
    run_round-Safe fuel (new_block b) miner m h = rw (← some-injective _ _ h) (same-Safe m)
