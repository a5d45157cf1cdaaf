-- ===== src/Core/Laws/Ledger.antt =====
-- The ledgers of a running node's states, through every event.
use mathlib.Core.Option.{some-injective}
use toychain.Prelude.{
  ℕ, ◌≡◌, refl, leb, Option, none, some, List, [], ◌∷◌, ◌=ᵇ◌, Bool-cases, inl, inr, map-eq-some,
}
use toychain.Outcome.{Outcome, ok, err, panic}
use toychain.Types.Value.{Cid}
use toychain.Types.Address.{Address}
use toychain.Types.Transaction.{Transaction}
use toychain.Types.Block.{Block, score}
use toychain.Platform.{Platform}
use toychain.Platform.Laws.{IsHamt, IsActorCodec, IsCid, IsBlockStore}
use toychain.Contract.Laws.Supply.{IsDistinct}
use toychain.Chain.Manager.{Manager}
use toychain.Chain.Process.{inform, inform_tx}
use toychain.Chain.Miner.{Miner, Event, block_found, new_block, run_round}
use toychain.Chain.Laws.Funded.{Ordinary}
use toychain.Chain.Laws.Solvent.{Solvent, Stocked, Sustains, Stocked-Sustains}
use toychain.Chain.Laws.Solvency.{inform-Sustains}
use toychain.Chain.Laws.Stocked.{inform_tx-Stocked}
use toychain.Core.Boot.{ToychainNode}
use toychain.Core.Node.{HelloMessage, with_block, handle_head, handle_hello, send_new_block}
use toychain.Core.System.{
  NodeEvent, Services, Stepped, informed, take_block, take_tx, take_hello, mined, round, receive,
  node_step, Reach, block_message, tx_message, subscription_failed, hello_stream, timer_fired,
  miner_receives, address_added, here, next, takes,
}
use toychain.Core.Laws.System.{node_step-Progress}
use toychain.Core.Laws.Paying.{run_round-Safe}

module _ (p : Platform) where
  informed-manager :
      (n : ToychainNode p) (r : Outcome (Option Block) × Manager p)
      → (informed p n r).1.manager ≡ r.1
  informed-manager n (ok (some b), m) = refl
  informed-manager n (ok none, m) = refl
  informed-manager n (err e, m) = refl
  informed-manager n (panic, m) = refl

  mined-manager :
      (n : ToychainNode p) (r : Outcome Miner × Manager p) → (mined p n r).1.manager ≡ r.1
  mined-manager n (ok miner, m) = refl
  mined-manager n (err e, m) = refl
  mined-manager n (panic, m) = refl

module _ (p : Platform) (laws : IsHamt p) (codec : IsActorCodec p) (cids : IsCid p)
    (blocks : IsBlockStore p) (contract : Address) (accounts : List Address) (sum : ℕ)
    (distinct : IsDistinct accounts) where
  abbrev Safe : Manager p → Manager p → Type 0
  Safe = Sustains p contract accounts sum

  same-Safe : (m : Manager p) → Safe m m
  same-Safe m ordinary s = s

  Stocked-Safe : (m m' : Manager p) → Stocked p m m' → Safe m m'
  Stocked-Safe m m' g = Stocked-Sustains p contract accounts sum m m' m' g (same-Safe m')

  take_block-Safe :
      (fuel : ℕ) (o : Outcome Block) (n : ToychainNode p) {r : Stepped p}
      → take_block p fuel o n ≡ some r
      → Safe n.manager r.1.manager
  take_block-Safe fuel (ok blk) n {r} h =
      let (v, e, same) = map-eq-some (informed p n) (inform p fuel blk n.manager) {b = r} h in
      rw (← same, informed-manager p n v)
        (inform-Sustains p contract accounts sum blocks laws codec cids distinct fuel blk n.manager
          {r = v} e)
  take_block-Safe fuel (err e) n h = rw (← some-injective _ _ h) (same-Safe n.manager)
  take_block-Safe fuel panic n h = rw (← some-injective _ _ h) (same-Safe n.manager)

  take_tx-Safe :
      (o : Outcome Transaction) (n : ToychainNode p) → Safe n.manager (take_tx p o n).1.manager
  take_tx-Safe (ok tx) n =
      Stocked-Safe n.manager (inform_tx p tx n.manager).1 (inform_tx-Stocked p tx n.manager)
  take_tx-Safe (err e) n = same-Safe n.manager
  take_tx-Safe panic n = same-Safe n.manager

  with_block-Safe :
      (fuel : ℕ) (o : Outcome Block) (m : Manager p) {r : Outcome (Option Block) × Manager p}
      → with_block p fuel o m ≡ some r
      → Safe m r.1
  with_block-Safe fuel (ok blk) m {r} h =
      inform-Sustains p contract accounts sum blocks laws codec cids distinct fuel blk m {r = r} h
  with_block-Safe fuel (err e) m h = rw (← some-injective _ _ h) (same-Safe m)
  with_block-Safe fuel panic m h = rw (← some-injective _ _ h) (same-Safe m)

  handle_head-Safe :
      (fuel : ℕ) (c : Option Cid) (height : ℕ) (m : Manager p)
      {r : Outcome (Option Block) × Manager p}
      → handle_head p fuel c height m ≡ some r
      → Safe m r.1
  handle_head-Safe fuel none height m h = rw (← some-injective _ _ h) (same-Safe m)
  handle_head-Safe fuel (some c) height m {r} h =
      elim (Bool-cases (leb height (score m.best_block))) [
        | inl low ↦ rw (← some-injective _ _ (rw low at h)) (same-Safe m)
        | inr high ↦ with_block-Safe fuel (p.get_block m.store (some c)) m {r = r} (rw high at h)
      ]

  take_hello-Safe :
      (fuel : ℕ) (o : Option HelloMessage) (n : ToychainNode p) {r : Stepped p}
      → take_hello p fuel o n ≡ some r
      → Safe n.manager r.1.manager
  take_hello-Safe fuel (some x) n {r} h =
      let (v, e, same) = map-eq-some (informed p n) (handle_hello p fuel x n.manager) {b = r} h in
      rw (← same, informed-manager p n v)
        (handle_head-Safe fuel x.head x.block_height n.manager {r = v} (unfold handle_hello in e))
  take_hello-Safe fuel none n h = rw (← some-injective _ _ h) (same-Safe n.manager)

  module _ (s : Services) where
    round-Safe :
        (fuel : ℕ) (e : Event) (n : ToychainNode p) {r : Stepped p}
        → round p s fuel e n ≡ some r
        → Safe n.manager r.1.manager
    round-Safe fuel e n {r} h =
        let (v, ran, same) =
          map-eq-some (mined p n)
            (run_round p s.order (send_new_block p s.publish_block fuel) e n.miner n.manager)
            {b = r} h in
        rw (← same, mined-manager p n v)
          (run_round-Safe p laws codec cids blocks contract accounts sum distinct s.order
            s.publish_block fuel e n.miner n.manager {r = v} ran)

    receive-Safe :
        (fuel : ℕ) (bs : List Block) (n : ToychainNode p) {r : Stepped p}
        → receive p s fuel bs n ≡ some r
        → Safe n.manager r.1.manager
    receive-Safe fuel [] n h = rw (← some-injective _ _ h) (same-Safe n.manager)
    receive-Safe fuel (b ∷ bs) n {r} h =
        round-Safe fuel (new_block b) (record n { inbox = bs }) {r = r} h

    node_step-Safe :
        (fuel : ℕ) (e : NodeEvent) (n : ToychainNode p) {r : Stepped p}
        → node_step p s fuel e n ≡ some r
        → Safe n.manager r.1.manager
    unfolding node_step
    node_step-Safe fuel (block_message from data') n {r} h = elim (Bool-cases (from =ᵇ n.self)) [
      | inl own ↦ rw (← some-injective _ _ (rw own at h)) (same-Safe n.manager)
      | inr other ↦ take_block-Safe fuel (s.decode_block data') n {r = r} (rw other at h)
    ]
    node_step-Safe fuel (tx_message data') n h =
        rw (← some-injective _ _ h) (take_tx-Safe (s.decode_tx data') n)
    node_step-Safe fuel subscription_failed n h = rw (← some-injective _ _ h) (same-Safe n.manager)
    node_step-Safe fuel (hello_stream x) n {r} h = take_hello-Safe fuel x n {r = r} h
    node_step-Safe fuel timer_fired n {r} h = round-Safe fuel block_found n {r = r} h
    node_step-Safe fuel miner_receives n {r} h = receive-Safe fuel n.inbox n {r = r} h
    node_step-Safe fuel (address_added a) n h = rw (← some-injective _ _ h) (same-Safe n.manager)

    pub Reach-Solvent :
        {n later : ToychainNode p}
        → Reach p s n later
        → Ordinary p contract accounts later.manager.known_good_blocks
        → Solvent p contract accounts sum n.manager
        → Solvent p contract accounts sum later.manager
    Reach-Solvent here ordinary start = start
    Reach-Solvent {n} {later} (next {m} r (takes fuel e h)) ordinary start =
        let g = node_step-Progress p s fuel e m {r = (ok tt, later)} h in
        node_step-Safe fuel e m {r = (ok tt, later)} h ordinary (
          Reach-Solvent r (λ b c is_cid known. ordinary b c is_cid (g.advances.learns c known))
            start)
