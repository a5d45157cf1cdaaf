-- ===== src/Core/Laws/Send.antt =====
-- What `SendNewTransactionAndWait` answers.
use mathlib.Core.List.{Mem, mem-cons}
use mathlib.Core.Logic.Or
use mathlib.Core.Option.{some-injective}
use mathlib.Core.Path.{subst}
use toychain.Prelude.{
  ℕ, suc, ◌+◌, ◌≡◌, refl, sym, ap, ◌∙◌, Option, none, some, List, [], ◌∷◌, ◌=ᵇ◌, =ᵇ→eq, Bool-cases,
  inl, inr, get_elem?, Bytes, arith,
}
use toychain.Outcome.{Outcome, ok, err, panic, Error, ok_injective, Outcome-cases}
use toychain.Exec.{lift, ◌>>=◌, ◌>>◌, >>=-eq-ok}
use toychain.Types.Value.{Cid}
use toychain.Types.Transaction.{Transaction}
use toychain.Types.Block.{Block, Receipt}
use toychain.Platform.{Platform}
use toychain.Platform.Laws.{IsCid}
use toychain.Core.Node.{TxResult, receipt_at, compared, search_txs}
use toychain.Core.Send.{found, wait_for, send_new_transaction_and_wait, publish_tx}

module _ (p : Platform) where
  -- A transaction with the Cid `c` stands in the block, and the receipt at the same place.
  pub record IsResult (c : Cid) (txs : List Transaction) (i : ℕ) (r : TxResult) : Type 0 where
    pub place : ℕ
    pub listed : Transaction
    pub at_place : get_elem? txs place ≡ some listed
    pub same_cid : p.wrap_tx listed ≡ ok c
    pub receipt : get_elem? r.block.receipts (i + place) ≡ some r.receipt

  receipt_at-eq-ok :
      (blk : Block) (o : Option Receipt) {r : TxResult}
      → receipt_at p blk o ≡ ok (some r)
      → (r.block ≡ blk) × (o ≡ some r.receipt)
  receipt_at-eq-ok blk (some x) h =
      let same = some-injective _ _ (ok_injective h) in
      (ap (λ (y : TxResult). y.block) (sym same), ap (λ (y : TxResult). some y.receipt) same)
  receipt_at-eq-ok blk none h = cc h

  -- One transaction of the block was looked at.
  compared-IsResult :
      (c oc : Cid) (blk : Block) (i : ℕ) (tx : Transaction) (txs : List Transaction)
      (later : Outcome (Option TxResult)) {r : TxResult}
      → p.wrap_tx tx ≡ ok oc
      → (later ≡ ok (some r) → (r.block ≡ blk) × IsResult c txs (suc i) r)
      → compared p blk i (c =ᵇ oc) later ≡ ok (some r)
      → (r.block ≡ blk) × IsResult c (tx ∷ txs) i r
  compared-IsResult c oc blk i tx txs later {r} wrapped rest h = elim (Bool-cases (c =ᵇ oc)) [
    | inl same ↦
        let (is_block, there) =
          receipt_at-eq-ok blk (get_elem? blk.receipts i) {r = r} (rw same at h) in
        (
          is_block,
          record {
            place = 0;
            listed = tx;
            at_place = refl;
            same_cid = rw (=ᵇ→eq c oc same) wrapped;
            receipt =
                ap (λ n. get_elem? r.block.receipts n) (omega arith)
                ∙ ap (λ (b : Block). get_elem? b.receipts i) is_block
                ∙ there;
          },
        )
    | inr other ↦
        let (is_block, found) = rest (rw other at h) in
        (
          is_block,
          record {
            place = suc found.place;
            listed = found.listed;
            at_place = found.at_place;
            same_cid = found.same_cid;
            receipt = ap (λ n. get_elem? r.block.receipts n) (omega arith) ∙ found.receipt;
          },
        )
  ]

  search_txs-step :
      IsCid p
      → (c oc : Cid) (blk : Block) (i : ℕ) (tx : Transaction) (txs : List Transaction)
      → p.wrap_tx tx ≡ ok oc
      → search_txs p c blk i (tx ∷ txs)
        ≡ compared p blk i (c =ᵇ oc) (search_txs p c blk (suc i) txs)
  unfolding search_txs
  search_txs-step laws c oc blk i tx txs wrapped = rw (search_txs, wrapped, laws.equals_some c oc)

  search_txs-IsResult :
      IsCid p
      → (c : Cid) (blk : Block) (i : ℕ) (txs : List Transaction) {r : TxResult}
      → search_txs p c blk i txs ≡ ok (some r)
      → (r.block ≡ blk) × IsResult c txs i r
  unfolding search_txs
  search_txs-IsResult laws c blk i [] h = cc h
  search_txs-IsResult laws c blk i (tx ∷ txs) {r} h =
      let later = search_txs p c blk (suc i) txs in
      elim (Outcome-cases (p.wrap_tx tx)) [
        | inl (oc, wrapped) ↦
            compared-IsResult c oc blk i tx txs later {r = r} wrapped
              (search_txs-IsResult laws c blk (suc i) txs {r = r})
              (sym (search_txs-step laws c oc blk i tx txs wrapped) ∙ h)
        | inr (inl (e, failed)) ↦ cc (rw (search_txs, failed) at h)
        | inr (inr failed) ↦ cc (rw (search_txs, failed) at h)
      ]

  -- What the loop returns was in one of the blocks.
  pub record IsAnswer (c : Cid) (blks : List Block) (r : TxResult) : Type 0 where
    pub among : Mem r.block blks
    pub result : IsResult c r.block.txs 0 r

  wait_for-IsAnswer :
      IsCid p
      → (e : Error) (c : Cid) (blks : List Block) {r : TxResult} → wait_for p e c blks ≡ ok r
      → IsAnswer c blks r
  unfolding wait_for
  wait_for-IsAnswer laws e c [] h = cc h
  wait_for-IsAnswer laws e c (blk ∷ blks) {r} h =
      go (search_txs p c blk 0 blk.txs) refl (wait_for-IsAnswer laws e c blks {r = r}) h
    where
      go :
          (o : Outcome (Option TxResult))
          → search_txs p c blk 0 blk.txs ≡ o
          → (wait_for p e c blks ≡ ok r → IsAnswer c blks r)
          → found p o (wait_for p e c blks) ≡ ok r
          → IsAnswer c (blk ∷ blks) r
      go (ok (some x)) searched later f =
          let same : x ≡ r = ok_injective f in
          let (is_block, answer) =
            search_txs-IsResult laws c blk 0 blk.txs {r = r}
              (searched ∙ ap (λ y. ok (some y)) same) in
          record {
            among = mem-cons.1 (Or.inl is_block);
            result = subst (λ (b : Block). IsResult c b.txs 0 r) (sym is_block) answer;
          }
      go (ok none) searched later f =
          let a = later f in record { among = mem-cons.1 (Or.inr a.among); result = a.result }
      go (err x) searched later f = cc f
      go panic searched later f = cc f

  -- Where Cids are compared as bytes, what `SendNewTransactionAndWait` returns without an error is one
  -- of the blocks that were notified, with the receipt that stands in it at the place of a
  -- transaction with the Cid of the one that was sent; and that one's data was published.
  pub send_and_wait-IsAnswer :
      IsCid p
      → (marshal : Transaction → Outcome Bytes) (publish : Bytes → Outcome (Unit {0})) (e : Error)
        (blks : List Block) (tx : Transaction) (sent : List Bytes) {r : TxResult}
      → (send_new_transaction_and_wait p marshal publish e blks tx sent).0 ≡ ok r
      → (c : Cid) × (data' : Bytes) × (p.wrap_tx tx ≡ ok c)
        × IsAnswer c blks r
        × (marshal tx ≡ ok data')
        × ((send_new_transaction_and_wait p marshal publish e blks tx sent).1 ≡ data' ∷ sent)
  unfolding send_new_transaction_and_wait
  send_and_wait-IsAnswer laws marshal publish e blks tx sent {r} h =
      let wait = lift (p.wrap_tx tx) >>= λ c. lift (wait_for p e c blks) in
      let (data', e1, r1) =
        >>=-eq-ok (lift (marshal tx)) (λ data'. publish_tx p marshal publish data' >> wait) sent
          {b = r} h in
      let (u, e2, r2) =
        >>=-eq-ok (publish_tx p marshal publish data') (λ _. wait) sent {b = r} (cc h) in
      let (c, e3, r3) =
        >>=-eq-ok (lift (p.wrap_tx tx)) (λ c. lift (wait_for p e c blks)) (data' ∷ sent) {b = r}
          (cc h) in
      let ran = r1 ∙ r2 ∙ r3 in
      (
        c,
        data',
        e3,
        wait_for-IsAnswer laws e c blks {r = r} (sym (ap (λ x. x.0) ran) ∙ h),
        e1,
        ap (λ x. x.1) ran,
      )
