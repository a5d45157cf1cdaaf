-- ===== src/Chain/Laws/Solvency.antt =====
-- The ledgers of the manager's states through `ProcessNewBlock` and the other operations.
use mathlib.Core.Path.{subst}
use toychain.Prelude.{
  ℕ, ◌≡◌, refl, ap, sym, ◌∙◌, Option, some, List, [], ◌∷◌, inl, inr, ◌⊎◌, map-eq-some,
}
use toychain.Outcome.{Outcome, ok, Context, ok_injective, wrapping, Outcome-cases}
use toychain.Exec.{◌>>=◌, ◌>>◌, lift, continue, >>=-relates}
use toychain.Types.Value.{Cid}
use toychain.Types.Address.{Address}
use toychain.Types.Transaction.{Transaction}
use toychain.Types.Block.{Block}
use toychain.Platform.{Platform}
use toychain.Platform.Laws.{IsHamt, IsActorCodec, IsCid, IsBlockStore, Grows, Grows-refl}
use toychain.Contract.World.{World, load_state}
use toychain.Contract.Laws.Supply.{IsDistinct}
use toychain.Chain.Manager.{
  Manager, block_cid, has, add_to_dag, clear_txs, load_root, settle, set_best, publish, drop_tx,
  modify, in_context, accept_new_block,
}
use toychain.Chain.Validate.{validate_block}
use toychain.Chain.Process.{after_validation, process_new_block, inform, to_miner}
use toychain.Chain.Laws.Head.{load_state-root}
use toychain.Chain.Laws.Accept.{
  settle-SameHead, accept_new_block-Heads, accept-eq-with_cid, with_cid, with_cid-ok, with_cid-stop,
  accept-stop,
}
use toychain.Chain.Laws.Process.{after_validation-ends}
use toychain.Chain.Laws.Advance.{Heads-learns}
use toychain.Chain.Laws.Funded.{Funded, Backed, Ordinary, Funded-Grows, Backed-cons}
use toychain.Chain.Laws.Solvent.{
  Solvent, Solvent-Stocked, current_at, validate_block-Validated, Sustains,
}

module _ (p : Platform) where
  -- What `settle` does to the state: it stays, or is loaded from the block's root.
  pub record Settles (blk : Block) (m m' : Manager p) : Type 0 where
    pub store : m'.store ≡ m.store
    pub state : (m'.state_root ≡ m.state_root) ⊎ (p.load m.store blk.state_root ≡ ok m'.state_root)

  same-Settles : (blk : Block) (m : Manager p) → Settles blk m m
  same-Settles blk m = record { store = refl; state = inl refl }

  Settles-trans :
      (blk : Block) (a b c : Manager p) → Settles blk a b → Settles blk b c → Settles blk a c
  Settles-trans blk a b c f g = record {
    store = g.store ∙ f.store;
    state = elim g.state [
      | inr loaded ↦ inr (ap (λ st. p.load st blk.state_root) (sym f.store) ∙ loaded)
      | inl same ↦ elim f.state [
        | inl same' ↦ inl (same ∙ same')
        | inr loaded ↦ inr (loaded ∙ ap ok (sym same))
      ]
    ];
  }

  clear_txs-Settles :
      (blk : Block) (txs : List Transaction) (m : Manager p) → Settles blk m (clear_txs p txs m).1
  unfolding clear_txs
  clear_txs-Settles blk [] m = same-Settles blk m
  clear_txs-Settles blk (tx ∷ txs) m =
      >>=-relates (Settles blk) (lift (p.wrap_tx tx))
        (λ c. modify p (drop_tx p c) >> clear_txs p txs) (Settles-trans blk) (same-Settles blk)
        (λ c.
          >>=-relates (Settles blk) (modify p (drop_tx p c)) (λ _. clear_txs p txs)
            (Settles-trans blk) (λ m. record { store = refl; state = inl refl })
            (λ _. clear_txs-Settles blk txs))
        m

  pub settle-Settles : (blk : Block) (m : Manager p) → Settles blk m (settle p blk m).1
  unfolding settle load_root
  settle-Settles blk =
      let load = in_context p Context.approved_state (load_root p blk.state_root) in
      let put = λ (w : World p).
        modify p (λ m. record m { state_root = w.root }) >> modify p (publish p blk) in
      >>=-relates (Settles blk) (clear_txs p blk.txs) (λ _. load >>= put) (Settles-trans blk)
        (clear_txs-Settles blk blk.txs)
        (λ _ m. elim (Outcome-cases (load_state p m.store blk.state_root)) [
          | inl (w, e) ↦
              rw (e, continue, wrapping)
                (record {
                  store = refl;
                  state = inr (load_state-root p m.store blk.state_root w e);
                })
          | inr (inl (x, e)) ↦ rw (e, continue, wrapping) (same-Settles blk m)
          | inr (inr e) ↦ rw (e, continue, wrapping) (same-Settles blk m)
        ])

module _ (p : Platform) (contract : Address) (accounts : List Address) (sum : ℕ)
    (blocks : IsBlockStore p) where
  settle-Solvent :
      (blk : Block) (m : Manager p)
      → Funded p contract accounts sum m.store blk
      → Solvent p contract accounts sum m
      → Solvent p contract accounts sum (settle p blk m).1
  settle-Solvent blk m f s =
      let m' = (settle p blk m).1 in
      let t = settle-Settles p blk m in
      let keeps = settle-SameHead p blk m in
      let grows : Grows p m.store m'.store = rw t.store (Grows-refl p m.store) in
      record {
        backed =
            subst (λ st. Backed p contract accounts sum st m'.known_good_blocks) (sym t.store)
              (subst (Backed p contract accounts sum m.store) (sym keeps.known) s.backed);
        current = elim t.state [
          | inl same ↦ current_at p contract accounts sum m m' grows same s.current
          | inr loaded ↦
              current_at p contract accounts sum (record m { state_root = f.root }) m' grows
                (ok_injective (sym loaded ∙ f.loaded)) f.has_total
        ];
      }

  with_cid-Solvent :
      (blk : Block) (c : Cid) (m : Manager p)
      → block_cid p blk ≡ ok c
      → Funded p contract accounts sum m.store blk
      → Solvent p contract accounts sum m
      → Solvent p contract accounts sum (with_cid p blk c m).1
  with_cid-Solvent blk c m is_cid f s =
      let added = (add_to_dag p blk m).1 in
      let grows : Grows p m.store added.store = unfold add_to_dag in blocks.add_grows blk m.store in
      let now =
        Solvent-Stocked p contract accounts sum m added
          (unfold add_to_dag in record { store = grows; known = refl; root = refl }) s in
      let funded = Funded-Grows p contract accounts sum grows f in
      elim (Outcome-cases (add_to_dag p blk m).0) [
        | inl (u, e) ↦ rw (with_cid-ok p blk c m u e) (
            settle-Solvent blk (set_best p blk c added) funded (record {
              backed =
                  Backed-cons p contract accounts sum added.known_good_blocks blk c blocks is_cid
                    funded now.backed;
              current = now.current;
            }))
        | inr stop ↦ rw (with_cid-stop p blk c m stop) now
      ]

  accept_new_block-Solvent :
      (blk : Block) (m : Manager p)
      → Funded p contract accounts sum m.store blk
      → Solvent p contract accounts sum m
      → Solvent p contract accounts sum (accept_new_block p blk m).1
  accept_new_block-Solvent blk m f s = elim (Outcome-cases (block_cid p blk)) [
    | inl (c, e) ↦ rw (accept-eq-with_cid p blk c m e) (with_cid-Solvent blk c m e f s)
    | inr stop ↦ rw (accept-stop p blk m stop) s
  ]

  module _ (laws : IsHamt p) (codec : IsActorCodec p) (cids : IsCid p)
      (distinct : IsDistinct accounts) where
    after_validation-Solvent :
        (fuel : ℕ) (blk : Block) (m : Manager p) (v : Outcome (Unit {0}) × Manager p)
        → validate_block p fuel blk m ≡ some v
        → Ordinary p contract accounts (after_validation p blk v).1.known_good_blocks
        → Solvent p contract accounts sum m
        → Solvent p contract accounts sum (after_validation p blk v).1
    after_validation-Solvent fuel blk m v e ordinary s = elim (after_validation-ends p blk v) [
      | inl (same, _) ↦
          let before =
            subst (λ (m : Manager p). Ordinary p contract accounts m.known_good_blocks) same
              ordinary in
          rw same (
            (validate_block-Validated p contract accounts sum laws codec cids blocks distinct fuel
              blk m {r = v} e before s).solvent)
      | inr (passed, _, same) ↦
          let end = accept_new_block p blk v.1 in
          let before : Ordinary p contract accounts v.1.known_good_blocks = λ b c is_cid here.
            ordinary b c is_cid (
              ap (λ r. has c r.1.known_good_blocks) same
              ∙ Heads-learns p blk c (accept_new_block-Heads p blk v.1) here) in
          let valid =
            validate_block-Validated p contract accounts sum laws codec cids blocks distinct fuel
              blk m {r = v} e before s in
          let (c, is_cid, here) = valid.passed passed in
          rw same (
            accept_new_block-Solvent blk v.1 (valid.solvent.backed blk c is_cid here) valid.solvent)
    ]

    -- By the laws of the HAMT, of an actor's JSON form, of Cids and of the block store, take a manager
    -- whose current state has a ledger with the given sum over some distinct accounts, as has the
    -- state that any block names whose Cid is known. Whatever block is processed, and whatever the
    -- result once the processing has ended, this holds afterwards, if the blocks whose Cids are then
    -- known have ordinary transactions only.
    pub process_new_block-Solvent :
        (fuel : ℕ) (blk : Block) (m : Manager p) {r : Outcome (Unit {0}) × Manager p}
        → process_new_block p fuel blk m ≡ some r
        → Ordinary p contract accounts r.1.known_good_blocks
        → Solvent p contract accounts sum m
        → Solvent p contract accounts sum r.1
    process_new_block-Solvent fuel blk m {r} h ordinary s =
        let (v, e, done) =
          map-eq-some (after_validation p blk) (validate_block p fuel blk m) {b = r}
            (unfold process_new_block in h) in
        subst (λ x. Solvent p contract accounts sum x.1) done
          (after_validation-Solvent fuel blk m v e
            (subst (λ x. Ordinary p contract accounts x.1.known_good_blocks) (sym done) ordinary) s)

    pub inform-Sustains :
        (fuel : ℕ) (blk : Block) (m : Manager p) {r : Outcome (Option Block) × Manager p}
        → inform p fuel blk m ≡ some r
        → Sustains p contract accounts sum m r.1
    inform-Sustains fuel blk m {r} h =
        let (v, e, same) =
          map-eq-some (λ r. (to_miner p blk r.0, r.1)) (process_new_block p fuel blk m) {b = r}
            (unfold inform in h) in
        subst (λ x. Sustains p contract accounts sum m x.1) same
          (process_new_block-Solvent fuel blk m {r = v} e)
