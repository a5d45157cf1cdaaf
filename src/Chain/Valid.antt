-- ===== src/Chain/Valid.antt =====
-- What `validateBlock` of state/state_manager.go promises: a valid block, with no walk and no fuel.
use toychain.Prelude.{◌<◌, ◌≡◌, true, false, some, List, [], ◌∷◌, ◌++◌}
use toychain.Outcome.{ok}
use toychain.Types.Value.{Cid}
use toychain.Types.Block.{Block, score}
use toychain.Platform.{Platform}
use toychain.Contract.World.{World}
use toychain.Contract.Execute.{apply_transactions, flush_state}
use toychain.Chain.Manager.{Manager, block_cid, has}
use toychain.Chain.Validate.{fetch_block}

module _ (p : Platform) where
  -- The blocks from a known one, the base, up to the tip, the oldest first and without the base.
  pub data Chain (st : p.Store) (known : List Cid) (base : Block)
      : List Block → Block → Type 0 where
    rooted : (c : Cid) → block_cid p base ≡ ok c → has c known ≡ true → Chain st known base [] base
    grown :
        {bs : List Block} {below tip : Block}
        → Chain st known base bs below
        → (c : Cid) → block_cid p tip ≡ ok c
        → has c known ≡ false
        → fetch_block p st tip.parent ≡ ok below
        → Chain st known base (bs ++ tip ∷ []) tip

  -- The transactions of a block run, one after the other, and leave the state that the block names.
  pub record Moves (w : World p) (b : Block) (w' : World p) : Type 0 where
    pub ran : World p
    pub runs : apply_transactions p b.txs w ≡ (ok tt, ran)
    pub root : Cid
    pub flushes : flush_state p ran ≡ (ok root, w')
    pub named : b.state_root ≡ some root

  pub data Replays : World p → List Block → World p → Type 0 where
    stays : (w : World p) → Replays w [] w
    moves :
        {w v u : World p} {b : Block} {bs : List Block}
        → Moves w b v
        → Replays v bs u
        → Replays w (b ∷ bs) u

  pub record IsValidBlock (m : Manager p) (b : Block) : Type 0 where
    pub base : Block
    pub chain : List Block
    pub start : p.Node
    pub last : World p
    pub better : score m.best_block < score b
    pub links : Chain m.store m.known_good_blocks base chain b
    pub loads : p.load m.store base.state_root ≡ ok start
    pub replays : Replays (record { store = m.store; root = start }) chain last
