-- ===== src/Examples/Core.antt =====
-- The first block on an empty store.
use toychain.Contract.Execute.{flush_state}
use toychain.Examples.Toy.{toy_marshal}
use toychain.Contract.World.{set_actor}
use toychain.Prelude.{◌≡◌, refl, [], ◌∷◌}
use toychain.Outcome.{ok}
use toychain.Core.Genesis.{genesis_block, new_frame, create_genesis_block}
use toychain.Core.Laws.Genesis.{IsGenesis, create_genesis_block-IsGenesis}
use toychain.Examples.Toy.{toy, ToyStore, toy-IsHamt, toy-IsActorCodec}

abbrev pub empty_store : ToyStore
empty_store = record { nodes = []; blocks = [] }

pub made : (create_genesis_block toy (new_frame toy empty_store)).0 ≡ ok (genesis_block (1 ∷ []))
unfolding create_genesis_block set_actor toy_marshal flush_state
made = refl

create_genesis_block-IsGenesis_example :
    IsGenesis toy
      (genesis_block (1 ∷ []))
      (create_genesis_block toy (new_frame toy empty_store)).1.world.store
create_genesis_block-IsGenesis_example =
    create_genesis_block-IsGenesis toy toy-IsHamt toy-IsActorCodec empty_store made
