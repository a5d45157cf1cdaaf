-- ===== src/Core/Laws/Genesis.antt =====
-- `CreateGenesisBlock` of core/genesis.go: what the first block's state holds.
use mathlib.Core.Path.{subst}
use toychain.Types.Address.{Address}
use toychain.Prelude.{
  if◌then◌else◌, ◌=ᵇ◌, Bool-cases, inl, inr, ◌≡◌, refl, sym, ap, ◌∙◌, =ᵇ-self, some, Bytes,
}
use toychain.Prelude.Int.{ℤ, pos, abs}
use toychain.Outcome.{not_found, ok_injective, Outcome, ok, err}
use toychain.Exec.{Exec, pure, ◌>>=◌, ◌>>◌, >>=-eq-ok}
use toychain.BigInt.{bytes, set_bytes-bytes}
use toychain.Types.Value.{Cid}
use toychain.Types.Block.{Block}
use toychain.Platform.{Platform}
use toychain.Platform.Laws.{Answered, IsHamt, IsActorCodec, Grows}
use toychain.Contract.World.{World, Frame, get_actor, set_actor, set_key, read_actor}
use toychain.Contract.Execute.{flush_state}
use toychain.Contract.Laws.Loads.{Loads, flush_state-Loads}
use toychain.Contract.Laws.Calls.{set_actor-store}
use toychain.Contract.Laws.Move.{balance}
use toychain.Contract.Laws.Actors.{actor_at, actor_at-set_actor}
use toychain.Chain.Miner.{contract_addr}
use toychain.Core.Genesis.{
  initial_network_tokens, genesis_block, token_actor, new_frame, put_memory, in_world,
  create_genesis_block,
}

module _ (p : Platform) where
  -- A first block, with a state that has the token contract and gives it the initial tokens.
  pub record IsGenesis (b : Block) (st : p.Store) : Type 0 where
    pub state_cid : Cid
    pub memory_cid : Cid
    pub root : p.Node
    pub ledger : p.Node
    pub block : b ≡ genesis_block state_cid
    pub loaded : p.load st b.state_root ≡ ok root
    pub contract :
        actor_at p (record { store = st; root = root }) contract_addr
        ≡ ok (token_actor p memory_cid)
    pub ledger_loaded : p.load st (some memory_cid) ≡ ok ledger
    pub entries :
        (k : Bytes)
        → p.find st ledger k
          ≡ (if contract_addr =ᵇ k then ok (bytes initial_network_tokens) else err not_found)
    pub funds :
        balance p
          (record { world = record { store = st; root = root }; memory = ledger })
          contract_addr
        ≡ initial_network_tokens

  initial_bytes : Bytes
  initial_bytes = bytes initial_network_tokens

  abbrev actor_set : Cid → Exec (Frame p) (Unit {0})
  actor_set c = in_world p (set_actor p contract_addr (token_actor p c))

  abbrev root_flushed : Exec (Frame p) Block
  root_flushed = in_world p (flush_state p) >>= λ root. pure (genesis_block root)

  find-Grows :
      (st st' : p.Store) (n : p.Node) (k : Bytes) (r : Outcome Bytes)
      → Grows p st st'
      → p.find st n k ≡ r
      → Answered r
      → p.find st' n k ≡ r
  find-Grows st st' n k r g e there = g.finds n k (subst Answered (sym e) there) ∙ e

  -- What is found under a key of a memory with the one entry.
  abbrev pub first_entry : Bytes → Outcome Bytes
  first_entry k = if contract_addr =ᵇ k then ok (bytes initial_network_tokens) else err not_found

  pub first_entry-Answered : (k : Bytes) → Answered (first_entry k)
  first_entry-Answered k = elim (Bool-cases (contract_addr =ᵇ k)) [
    | inl same ↦ rw same tt
    | inr other ↦ rw other tt
  ]

  actor_at-Loads :
      (w w' : World p) (c : Cid) (l : Loads p w.store w.root w'.store c) (a : Address)
      → actor_at p (record { store = w'.store; root = l.node }) a ≡ actor_at p w a
  unfolding actor_at get_actor
  actor_at-Loads w w' c l a = ap (read_actor p) (l.same a)

  balance-found :
      (f : Frame p) (a : Address) (n : ℤ)
      → p.find f.world.store f.memory a ≡ ok (bytes n)
      → balance p f a ≡ pos (abs n)
  unfolding balance
  balance-found f a n e = rw e (set_bytes-bytes n)

module _ (p : Platform) (laws : IsHamt p) (codec : IsActorCodec p) where
  -- By the laws of the HAMT and of an actor's JSON form, the block that `CreateGenesisBlock`
  -- returns has a state in the store that gives the token contract its actor, and the contract's
  -- own address all the initial tokens.
  pub create_genesis_block-IsGenesis :
      (st : p.Store) {b : Block}
      → (create_genesis_block p (new_frame p st)).0 ≡ ok b
      → IsGenesis p b (create_genesis_block p (new_frame p st)).1.world.store
  unfolding create_genesis_block set_key put_memory
  create_genesis_block-IsGenesis st {b} h =
      let f0 = new_frame p st in
      let (u, e1, r1) =
        >>=-eq-ok (set_key p contract_addr (bytes initial_network_tokens))
          (λ _. put_memory p >>= λ c. actor_set p c >> root_flushed p) f0 {b = b} h in
      let f1 = (set_key p contract_addr (bytes initial_network_tokens) f0).1 in
      let (c, e2, r2) =
        >>=-eq-ok (put_memory p) (λ c. actor_set p c >> root_flushed p) f1 {b = b} (cc (h, r1)) in
      let f2 = (put_memory p f1).1 in
      let (v, e3, r3) =
        >>=-eq-ok (actor_set p c) (λ _. root_flushed p) f2 {b = b} (cc (h, r1, r2)) in
      let f3 = (actor_set p c f2).1 in
      let (root, e4, r4) =
        >>=-eq-ok (in_world p (flush_state p)) (λ root. pure (genesis_block root)) f3 {b = b}
          (cc (h, r1, r2, r3)) in
      let f4 = (in_world p (flush_state p) f3).1 in
      let l = flush_state-Loads p laws f3.world root e4 in
      let (ledger, put_there, same) = laws.load_put st f1.memory c e2 in
      let kept = set_actor-store p contract_addr (token_actor p c) f2.world in
      let grows : Grows p f2.world.store f4.world.store =
        subst (λ (s : p.Store). Grows p s f4.world.store) kept l.grows in
      let written : (k : Bytes) → p.find st f1.memory k ≡ first_entry p k = λ k. rw (
        laws.find_set st contract_addr (bytes initial_network_tokens) p.new_node e1 k,
        laws.find_new st k,
      ) in
      let entries : (k : Bytes) → p.find f4.world.store ledger k ≡ first_entry p k = λ k.
        find-Grows p f2.world.store f4.world.store ledger k (first_entry p k) grows
          (same k ∙ written k) (first_entry-Answered p k) in
      let after : create_genesis_block p f0 ≡ (ok (genesis_block root), f4) = r1 ∙ r2 ∙ r3 ∙ r4 in
      let is_block : b ≡ genesis_block root = ok_injective (sym h ∙ ap (λ r. r.0) after) in
      subst (λ r. IsGenesis p b r.1.world.store) (sym after)
        (subst (λ (x : Block). IsGenesis p x f4.world.store) (sym is_block)
          (record {
            state_cid = root;
            memory_cid = c;
            root = l.node;
            ledger = ledger;
            block = refl;
            loaded = l.loaded;
            contract =
                actor_at-Loads p f3.world f4.world root l contract_addr
                ∙ rw (
                  actor_at-set_actor p laws codec contract_addr contract_addr (token_actor p c)
                      f2.world e3,
                  =ᵇ-self contract_addr,
                );
            ledger_loaded = grows.loads (some c) ledger put_there;
            entries = entries;
            funds =
                balance-found p
                  (record {
                    world = record { store = f4.world.store; root = l.node };
                    memory = ledger;
                  })
                  contract_addr initial_network_tokens
                  (entries contract_addr ∙ rw (=ᵇ-self contract_addr));
          }))
