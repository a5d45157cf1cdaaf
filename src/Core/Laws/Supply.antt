-- ===== src/Core/Laws/Supply.antt =====
-- The sum of the token contract's ledger in every state that a running node comes to.
use toychain.Prelude.{◌≡◌, sym, ◌∙◌, true, List, []}
use mathlib.Core.Path.{subst}
use toychain.Prelude.Int.{abs}
use toychain.Outcome.{Outcome, ok, ok_injective}
use toychain.Types.Address.{Address}
use toychain.Types.Block.{Block}
use toychain.Platform.{Platform}
use toychain.Platform.Laws.{IsHamt, IsActorCodec, IsCid, IsBlockStore}
use toychain.Lookup.{PeerId}
use toychain.Contract.Laws.Supply.{contains, IsDistinct}
use toychain.Contract.Laws.Conserve.{HasTotal}
use toychain.Chain.Manager.{add_to_dag, state_of}
use toychain.Chain.Miner.{contract_addr}
use toychain.Chain.Laws.Head.{load_state-root}
use toychain.Chain.Laws.Funded.{Funded, Backed, Ordinary, HasTotal-Grows, Backed-cons}
use toychain.Chain.Laws.Solvent.{Solvent}
use toychain.Core.Boot.{ToychainNode, Topic, first_state, new_toychain_node}
use toychain.Core.Genesis.{initial_network_tokens, create_genesis_block, new_frame}
use toychain.Core.System.{Services, Reach}
use toychain.Core.Laws.Genesis.{create_genesis_block-IsGenesis}
use toychain.Core.Laws.Money.{initial-HasTotal}
use toychain.Core.Laws.Boot.{seeded, empty_manager, first_state-steps, new_toychain_node-Booted}
use toychain.Core.Laws.Ledger.{Reach-Solvent}

module _ (p : Platform) (laws : IsHamt p) (codec : IsActorCodec p) (blocks : IsBlockStore p)
    (accounts : List Address) (distinct : IsDistinct accounts)
    (listed : contains contract_addr accounts ≡ true) where
  -- Before any event, the only known block is the genesis block.
  first_state-Solvent :
      (st : p.Store) (g : Block)
      → (create_genesis_block p (new_frame p st)).0 ≡ ok g
      → (first_state p g (empty_manager p st g)).0 ≡ ok tt
      → Solvent p contract_addr accounts
          (abs initial_network_tokens)
          (first_state p g (empty_manager p st g)).1
  unfolding add_to_dag
  first_state-Solvent st g made started =
      let sum = abs initial_network_tokens in
      let old = (create_genesis_block p (new_frame p st)).1.world.store in
      let (c, is_cid, (w, loaded, after)) = first_state-steps p g (empty_manager p st g) started in
      let store = (seeded p g c (empty_manager p st g)).store in
      let grows = blocks.add_grows g old in
      let first = create_genesis_block-IsGenesis p laws codec st made in
      let funded : Funded p contract_addr accounts sum store g = record {
        root = first.root;
        loaded = grows.loads g.state_root first.root first.loaded;
        has_total =
            HasTotal-Grows p contract_addr accounts sum old store first.root grows
              (initial-HasTotal p g old accounts first distinct listed);
      } in
      let same : first.root ≡ w.root =
        ok_injective (sym funded.loaded ∙ load_state-root p store g.state_root w loaded) in
      let none_known : Backed p contract_addr accounts sum store [] =
        λ b d _ found. absurd (cc found) in
      rw after (record {
        backed = Backed-cons p contract_addr accounts sum [] g c blocks is_cid funded none_known;
        current =
            subst (λ n. HasTotal p (record { store = store; root = n }) contract_addr accounts sum)
              same funded.has_total;
      })

module _ (p : Platform) (laws : IsHamt p) (codec : IsActorCodec p) (cids : IsCid p)
    (blocks : IsBlockStore p) where
  -- By the laws of the HAMT, of an actor's JSON form, of Cids and of the block store, take a node that
  -- `NewToychainNode` returned, and a later state of it, which it reached through messages, hello
  -- streams, mined blocks and new addresses in any order without a panic. Let the contract's own
  -- address be among some distinct accounts, and let each block whose Cid the later node knows as good
  -- have ordinary transactions only: each calls the contract, either to transfer an amount that is not
  -- negative from one of these accounts to another one, or for another method. Then the later node's
  -- current state has a ledger of the contract, which adds up, over these accounts, to the initial
  -- tokens; and so has, in the later node's store, the state that any block names whose Cid it knows
  -- as good.
  pub supply_stays_fixed :
      (s : Services) (subscribe : Topic → Outcome (Unit {0})) (self : PeerId) (base : Address)
      (st : p.Store) (accounts : List Address) {n later : ToychainNode p}
      → new_toychain_node p subscribe self base st ≡ ok n
      → Reach p s n later
      → IsDistinct accounts
      → contains contract_addr accounts ≡ true
      → Ordinary p contract_addr accounts later.manager.known_good_blocks
      → HasTotal p (state_of p later.manager) contract_addr accounts (abs initial_network_tokens)
        × Backed p contract_addr accounts
            (abs initial_network_tokens)
            later.manager.store
            later.manager.known_good_blocks
  supply_stays_fixed s subscribe self base st accounts {n} {later} h r distinct listed ordinary =
      let b = new_toychain_node-Booted p subscribe self base st {n = n} h in
      let start = subst (Solvent p contract_addr accounts (abs initial_network_tokens)) b.manager (
        first_state-Solvent p laws codec blocks accounts distinct listed st b.genesis b.made
          b.started) in
      let end =
        Reach-Solvent p laws codec cids blocks contract_addr accounts (abs initial_network_tokens)
          distinct s {n = n} {later = later} r ordinary start in
      (end.current, end.backed)
