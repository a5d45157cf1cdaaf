-- ===== src/Core/Laws/Money.antt =====
-- The sum of the first block's ledger, and of every chain that stands on it.
use toychain.Prelude.{
  ◌≡◌, refl, ap, sym, ◌∙◌, true, List, [], ◌∷◌, ◌=ᵇ◌, Bool-cases, inl, inr, arith, All, Bytes,
  if◌then◌else◌,
}
use mathlib.Core.Path.{subst}
use toychain.Prelude.Int.{pos_part, abs}
use toychain.Outcome.{ok, ok_injective}
use toychain.BigInt.{set_bytes-bytes}
use toychain.Types.Address.{Address}
use toychain.Types.Block.{Block}
use toychain.Platform.{Platform}
use toychain.Platform.Laws.{IsHamt, IsActorCodec, Answered, Grows}
use toychain.Contract.World.{World}
use toychain.Contract.Laws.Supply.{contains, IsDistinct, total, if_listed, if_listed-cons}
use toychain.Contract.Laws.Ledger.{held}
use toychain.Contract.Laws.Conserve.{HasTotal}
use toychain.Contract.Laws.Flushed.{Answers-HasTotal}
use toychain.Chain.Miner.{contract_addr}
use toychain.Chain.Valid.{Replays}
use toychain.Chain.Laws.Money.{IsOrdinaryBlock, Replays-HasTotal}
use toychain.Core.Genesis.{initial_network_tokens, new_frame, token_actor, create_genesis_block}
use toychain.Core.Laws.Genesis.{
  IsGenesis, create_genesis_block-IsGenesis, first_entry, first_entry-Answered,
}

module _ (p : Platform) where
  held_first :
      (st : p.Store) (n : p.Node) (a : Address)
      → p.find st n a ≡ first_entry p a
      → pos_part (held p st n a) ≡ (if contract_addr =ᵇ a then abs initial_network_tokens else 0)
  unfolding held
  held_first st n a e = rw e (elim (Bool-cases (contract_addr =ᵇ a)) [
    | inl same ↦ rw same (ap pos_part (set_bytes-bytes initial_network_tokens))
    | inr other ↦ rw other
  ])

  total-first :
      (st : p.Store) (n : p.Node) (accounts : List Address)
      → ((k : Bytes) → p.find st n k ≡ first_entry p k)
      → IsDistinct accounts
      → total (held p st n) accounts ≡ if_listed contract_addr accounts (abs initial_network_tokens)
  total-first st n [] entries d = refl
  total-first st n (a ∷ rest) entries d = omega (
    arith,
    held_first st n a (entries a),
    total-first st n rest entries d.1,
    if_listed-cons contract_addr a rest (abs initial_network_tokens) d.0,
  )

  entries-Answered :
      (st : p.Store) (n : p.Node) (accounts : List Address)
      → ((k : Bytes) → p.find st n k ≡ first_entry p k)
      → All (λ a. Answered (p.find st n a)) accounts
  entries-Answered st n [] entries = tt
  entries-Answered st n (a ∷ rest) entries = (
    subst Answered (sym (entries a)) (first_entry-Answered p a),
    entries-Answered st n rest entries,
  )

  -- The state of the first block has the contract's ledger, which adds up to the initial tokens.
  pub initial-HasTotal :
      (b : Block) (st : p.Store) (accounts : List Address) (g : IsGenesis p b st)
      → IsDistinct accounts
      → contains contract_addr accounts ≡ true
      → HasTotal p
          (record { store = st; root = g.root })
          contract_addr
          accounts
          (abs initial_network_tokens)
  initial-HasTotal b st accounts g distinct listed = record {
    ledger = g.ledger;
    is_ledger = record {
      account = token_actor p g.memory_cid;
      there = g.contract;
      loaded = g.ledger_loaded;
    };
    reads = entries-Answered st g.ledger accounts g.entries;
    adds_up = total-first st g.ledger accounts g.entries distinct ∙ rw listed;
  }

module _ (p : Platform) (laws : IsHamt p) (codec : IsActorCodec p) where
  -- By the laws of the HAMT and of an actor's JSON form, take the block that `CreateGenesisBlock`
  -- returned, a store that has grown from the one it left, and blocks that run one after the other,
  -- from the state that the first block names, to the states that they name. Let the contract's own
  -- address be among some distinct accounts, and let each transaction of these blocks call the
  -- contract, either to transfer an amount that is not negative from one of these accounts to another
  -- one, or for another method. Then the contract's ledger in the last state adds up, over these
  -- accounts, to the initial tokens.
  pub supply_is_fixed :
      (st now : p.Store) (start : p.Node) (g : Block) (bs : List Block) (last : World p)
      (accounts : List Address)
      → (create_genesis_block p (new_frame p st)).0 ≡ ok g
      → Grows p (create_genesis_block p (new_frame p st)).1.world.store now
      → p.load now g.state_root ≡ ok start
      → Replays p (record { store = now; root = start }) bs last
      → IsDistinct accounts
      → contains contract_addr accounts ≡ true
      → All (IsOrdinaryBlock contract_addr accounts) bs
      → HasTotal p last contract_addr accounts (abs initial_network_tokens)
  supply_is_fixed st now start g bs last accounts made grows loaded replays distinct listed
        ordinary =
      let old = (create_genesis_block p (new_frame p st)).1.world.store in
      let first = create_genesis_block-IsGenesis p laws codec st made in
      let same : first.root ≡ start =
        ok_injective (sym (grows.loads g.state_root first.root first.loaded) ∙ loaded) in
      let total_now : HasTotal p (record { store = now; root = first.root }) contract_addr accounts
          (abs initial_network_tokens) =
        Answers-HasTotal p (record { store = old; root = first.root })
          (record { store = now; root = first.root }) contract_addr accounts
          (abs initial_network_tokens) (record { of_root = grows.finds first.root; grows = grows })
          (initial-HasTotal p g old accounts first distinct listed) in
      Replays-HasTotal p laws codec contract_addr accounts (abs initial_network_tokens) distinct
        replays ordinary
        (subst
          (λ n.
            HasTotal p (record { store = now; root = n }) contract_addr accounts
              (abs initial_network_tokens))
          same total_now)
