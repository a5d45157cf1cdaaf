-- ===== src/Core/Laws/Boot.antt =====
-- What holds of a node that `NewToychainNode` returned, and of every node that it becomes.
use mathlib.Core.Path.{subst}
use toychain.Prelude.{◌≤◌, ◌≡◌, refl, sym, ap, ◌∙◌, [], ◌∷◌, =ᵇ-self, arith}
use toychain.Outcome.{Outcome, ok, err, panic, ok_injective, >>=-eq-ok}
use toychain.Exec
use toychain.Exec.{Exec, lift, ◌>>=◌, ◌>>◌}
use toychain.Types.Address.{Address}
use toychain.Types.Value.{Cid}
use toychain.Types.Block.{Block, score}
use toychain.Platform.{Platform}
use toychain.Contract.World.{World, load_state}
use toychain.Chain.Manager.{Manager, has, block_cid, add_to_dag, load_root}
use toychain.Chain.Laws.Advance.{IsKnownGood}
use toychain.Lookup.{PeerId}
use toychain.Core.Boot.{
  ToychainNode, Topic, new_state_manager, first_state, with_manager, on_genesis, first_manager,
  new_toychain_node,
}
use toychain.Core.Genesis.{create_genesis_block, new_frame}
use toychain.Core.System.{Services, Reach}
use toychain.Core.Laws.System.{IsSound, Reach-Progress}

module _ (p : Platform) where
  -- The steps of `first_state` after the Cid of the genesis block.
  abbrev learn : Cid → Exec (Manager p) (Unit {0})
  learn c m = (ok tt, record m { known_good_blocks = c ∷ m.known_good_blocks })

  abbrev set_state : World p → Exec (Manager p) (Unit {0})
  set_state st m = (ok tt, record m { state_root = st.root })

  -- The manager with the genesis block in its DAG and among its known blocks.
  abbrev pub seeded : Block → Cid → Manager p → Manager p
  seeded g c m = (learn c (add_to_dag p g m).1).1

  -- A `first_state` that returned no error has loaded the state of the genesis block.
  pub first_state-steps :
      (g : Block) (m : Manager p)
      → (first_state p g m).0 ≡ ok tt
      → (c : Cid) × (block_cid p g ≡ ok c)
        × ((w : World p) × (load_state p (seeded g c m).store g.state_root ≡ ok w)
            × ((first_state p g m).1 ≡ record (seeded g c m) { state_root = w.root }))
  unfolding first_state add_to_dag load_root
  first_state-steps g m h =
      let (c, is_cid, r1) =
        Exec.>>=-eq-ok (lift (block_cid p g))
          (λ c. add_to_dag p g >> (learn c >> (load_root p g.state_root >>= set_state))) m h in
      let (u, e2, r2) =
        Exec.>>=-eq-ok (add_to_dag p g) (λ _. learn c >> (load_root p g.state_root >>= set_state)) m
          {b = tt} (cc h) in
      let (w, e3, r3) =
        Exec.>>=-eq-ok (load_root p g.state_root) set_state (seeded g c m) {b = tt}
          (cc (h, r1, r2)) in
      (c, is_cid, (w, e3, ap (λ r. r.1) (r1 ∙ r2 ∙ r3)))

  first_state-IsKnownGood :
      (g : Block) (m : Manager p)
      → (first_state p g m).0 ≡ ok tt
      → m.best_block ≡ g
      → ((first_state p g m).1.best_block ≡ g) × IsKnownGood p (first_state p g m).1 g
  unfolding add_to_dag
  first_state-IsKnownGood g m h best =
      let (c, is_cid, (w, _, after)) = first_state-steps g m h in
      (
        ap (λ (m : Manager p). m.best_block) after ∙ best,
        record {
          cid = c;
          is_cid = is_cid;
          known =
              ap (λ (m : Manager p). has c m.known_good_blocks) after ∙ ground (arith, =ᵇ-self c);
        },
      )

  pub with_manager-eq-ok :
      (g : Block) (r : Outcome (Unit {0}) × Manager p) {a : Block} {m : Manager p}
      → with_manager p g r ≡ ok (a, m)
      → (r.0 ≡ ok tt) × (g ≡ a) × (r.1 ≡ m)
  with_manager-eq-ok g (ok u, m') h =
      let same = ok_injective h in (refl, ap (λ x. x.0) same, ap (λ x. x.1) same)
  with_manager-eq-ok g (err e, m') h = cc h
  with_manager-eq-ok g (panic, m') h = cc h

  -- The manager that `first_state` starts with.
  abbrev pub empty_manager : p.Store → Block → Manager p
  empty_manager st g = new_state_manager p (create_genesis_block p (new_frame p st)).1.world.store g

  -- A node that `NewToychainNode` returned: its manager is the one that `first_state` left.
  pub record Booted (st : p.Store) (n : ToychainNode p) : Type 0 where
    pub genesis : Block
    pub made : (create_genesis_block p (new_frame p st)).0 ≡ ok genesis
    pub started : (first_state p genesis (empty_manager st genesis)).0 ≡ ok tt
    pub manager : (first_state p genesis (empty_manager st genesis)).1 ≡ n.manager
    pub mining : n.miner.current_block ≡ genesis
    pub waiting : n.inbox ≡ []

  on_genesis-eq-ok :
      (st : p.Store) (o : Outcome Block) {g : Block} {m : Manager p}
      → on_genesis p st o ≡ ok (g, m)
      → (o ≡ ok g)
        × ((first_state p g (new_state_manager p st g)).0 ≡ ok tt)
        × ((first_state p g (new_state_manager p st g)).1 ≡ m)
  on_genesis-eq-ok st (ok b) {g} {m} h =
      let (e, same, end) =
        with_manager-eq-ok b (first_state p b (new_state_manager p st b)) {a = g} {m = m} h in
      rw (← same) (refl, e, end)
  on_genesis-eq-ok st (err e) h = cc h
  on_genesis-eq-ok st panic h = cc h

  pub new_toychain_node-Booted :
      (subscribe : Topic → Outcome (Unit {0})) (self : PeerId) (base : Address) (st : p.Store)
      {n : ToychainNode p}
      → new_toychain_node p subscribe self base st ≡ ok n
      → Booted st n
  unfolding new_toychain_node
  new_toychain_node-Booted subscribe self base st {n} h =
      let (_, _, h1) = >>=-eq-ok (subscribe Topic.lookup_topic) _ h in
      let (r, made, h2) = >>=-eq-ok (first_manager p st) _ h1 in
      let (_, _, h3) = >>=-eq-ok (subscribe Topic.txs_topic) _ h2 in
      let (_, _, h4) = >>=-eq-ok (subscribe Topic.blocks_topic) _ h3 in
      let (created, started, end) =
        on_genesis-eq-ok (create_genesis_block p (new_frame p st)).1.world.store
          (create_genesis_block p (new_frame p st)).0 {g = r.0} {m = r.1}
          (unfold first_manager in made) in
      subst (Booted st) (ok_injective h4) (record {
        genesis = r.0;
        made = created;
        started = started;
        manager = end;
        mining = refl;
        waiting = refl;
      })

  -- The genesis block is the best block and a known one, its miner builds on it, and no block waits.
  Booted-IsSound : (st : p.Store) {n : ToychainNode p} → Booted st n → IsSound p n
  Booted-IsSound st {n} b =
      let (best, known) =
        first_state-IsKnownGood b.genesis (empty_manager st b.genesis) b.started refl in
      let good : IsKnownGood p n.manager b.genesis =
        subst (λ m. IsKnownGood p m b.genesis) b.manager known in
      let top : n.manager.best_block ≡ b.genesis =
        ap (λ (m : Manager p). m.best_block) (sym b.manager) ∙ best in
      record {
        best = subst (IsKnownGood p n.manager) (sym top) good;
        mining = subst (IsKnownGood p n.manager) (sym b.mining) good;
        waiting = rw b.waiting tt;
      }

  -- Take a node that `NewToychainNode` returned, and a later state of it, which it reached through
  -- messages, hello streams, mined blocks and new addresses in any order without a panic. Its best
  -- block, the block that its miner builds on and every block that waits for the miner are known good
  -- blocks, and the height of its best block has not fallen.
  pub node_stays-IsSound :
      (s : Services) (subscribe : Topic → Outcome (Unit {0})) (self : PeerId) (base : Address)
      (st : p.Store) {n later : ToychainNode p}
      → new_toychain_node p subscribe self base st ≡ ok n
      → Reach p s n later
      → IsSound p later × (score n.manager.best_block ≤ score later.manager.best_block)
  node_stays-IsSound s subscribe self base st {n} {later} h r =
      let f = Reach-Progress p s {n = n} {m = later} r in
      (
        f.sound (Booted-IsSound st (new_toychain_node-Booted subscribe self base st h)),
        f.advances.rises,
      )
