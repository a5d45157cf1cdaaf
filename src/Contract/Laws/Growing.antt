-- ===== src/Contract/Laws/Growing.antt =====
-- What every execution of a contract does to the block store, whatever its end.
use toychain.Prelude.{◌≡◌, refl, some, List, [], ◌∷◌, ◌=ᵇ◌, Bool-cases, inl, inr, ◌==◌}
use toychain.Outcome.{Outcome, ok, err, panic, Context, wrapping}
use toychain.Exec.{Exec, lift, pure, ◌>>=◌, ◌>>◌, >>=-relates}
use toychain.Types.Value.{Value, Cid}
use toychain.Types.Address.{Address}
use toychain.Types.Transaction.{Transaction}
use toychain.Platform.{Platform, Actor}
use toychain.Platform.Laws.{IsHamt, IsActorCodec, Grows, Grows-refl, Grows-trans}
use toychain.Contract.World.{World, Frame, get_actor, set_actor}
use toychain.Contract.Call.{call}
use toychain.Contract.Execute.{
  Contract, get_contract, load_contract_state, flush_state, flush_memory, get_sender, store_sender,
  store_call, finish, call_contract, run_contract, check_nonce, actor_exec, apply_transactions,
  bump_nonce, bumped, in_context, succeeded, err_is_fatal,
}
use toychain.Contract.Laws.Calls.{call-store, set_actor-store}
use toychain.Contract.Laws.Stored.{flush_memory-Grows}

module _ (p : Platform) where
  -- The second world's store answers what the first one's answered.
  abbrev pub Extends : World p → World p → Type 0
  Extends w w' = Grows p w.store w'.store

  pub Extends-trans : (a b c : World p) → Extends a b → Extends b c → Extends a c
  Extends-trans a b c = Grows-trans p a.store b.store c.store

  same-Extends : (w w' : World p) → w'.store ≡ w.store → Extends w w'
  same-Extends w w' same = rw same (Grows-refl p w.store)

module _ (p : Platform) (laws : IsHamt p) (codec : IsActorCodec p) where
  pub flush_state-Extends : (w : World p) → Extends p w (flush_state p w).1
  unfolding flush_state
  flush_state-Extends w = go (p.flush w.root w.store).0 refl
    where
      go :
          (r : Outcome (Unit {0}))
          → (p.flush w.root w.store).0 ≡ r
          → Extends p w (flush_state p w).1
      go (ok u) e =
          let n = (p.flush w.root w.store).1 in
          let st = (p.flush w.root w.store).2 in
          rw (e, flush_state)
            (Grows-trans p w.store st (p.put n st).1 (laws.flush_grows w.store w.root)
              (laws.put_grows st n))
      go (err x) e = rw (e, flush_state) (laws.flush_grows w.store w.root)
      go panic e = rw (e, flush_state) (laws.flush_grows w.store w.root)

  set_actor-Extends :
      (a : Address) (act : Actor) (w : World p) → Extends p w (set_actor p a act w).1
  set_actor-Extends a act w = same-Extends p w (set_actor p a act w).1 (set_actor-store p a act w)

  store_sender-Extends :
      (tx : Transaction) (from : Actor) (w : World p) → Extends p w (store_sender p tx from w).1
  unfolding store_sender
  store_sender-Extends tx from w = elim (Bool-cases (tx.to =ᵇ tx.sender)) [
    | inl same ↦ rw same (Grows-refl p w.store)
    | inr other ↦ rw other (set_actor-Extends tx.sender from w)
  ]

  store_call-Extends :
      (tx : Transaction) (act from : Actor) (memory : p.Node) (val : Value) (w : World p)
      → Extends p w (store_call p tx act from memory val w).1
  unfolding store_call
  store_call-Extends tx act from memory val =
      let receive = λ (c : Cid).
        in_context p Context.set_actor (set_actor p tx.to (record act { memory = some c })) in
      >>=-relates (Extends p) (flush_memory p memory)
        (λ c. receive c >> (store_sender p tx from >> pure (succeeded val))) (Extends-trans p)
        (flush_memory-Grows p laws codec memory)
        (λ c.
          >>=-relates (Extends p) (receive c) (λ _. store_sender p tx from >> pure (succeeded val))
            (Extends-trans p) (set_actor-Extends tx.to (record act { memory = some c }))
            (λ _.
              >>=-relates (Extends p) (store_sender p tx from) (λ _. pure (succeeded val))
                (Extends-trans p) (store_sender-Extends tx from) (λ _ w. Grows-refl p w.store)))

  finish-Extends :
      (tx : Transaction) (act from : Actor) (r : Outcome Value) (f : Frame p)
      → Extends p f.world (finish p tx act from r f).1
  unfolding finish
  finish-Extends tx act from (ok val) f = store_call-Extends tx act from f.memory val f.world
  finish-Extends tx act from (err e) f = elim (Bool-cases (err_is_fatal e)) [
    | inl fatal ↦ rw fatal (Grows-refl p f.world.store)
    | inr not_fatal ↦ rw not_fatal (Grows-refl p f.world.store)
  ]
  finish-Extends tx act from panic f = Grows-refl p f.world.store

  call_contract-Extends :
      (tx : Transaction) (act from : Actor) (memory : p.Node) (w : World p)
      → Extends p w (call_contract p tx act from memory w).1
  unfolding call_contract
  call_contract-Extends tx act from memory w =
      let start : Frame p = record { world = w; memory = memory } in
      let r = call p tx.sender tx.method tx.params start in
      Extends-trans p w r.1.world (finish p tx act from r.0 r.1).1
        (same-Extends p w r.1.world (call-store p tx.sender tx.method tx.params start))
        (finish-Extends tx act from r.0 r.1)

  run_contract-Extends :
      (tx : Transaction) (act from : Actor) (w : World p)
      → Extends p w (run_contract p tx act from w).1
  unfolding run_contract load_contract_state
  run_contract-Extends tx act from =
      let read = in_context p Context.state_load (load_contract_state p act.memory) in
      let code : Exec (World p) Contract =
        lift (wrapping Context.get_contract (get_contract p act.code)) in
      >>=-relates (Extends p) code (λ _. read >>= call_contract p tx act from) (Extends-trans p)
        (λ w. Grows-refl p w.store)
        (λ _.
          >>=-relates (Extends p) read (call_contract p tx act from) (Extends-trans p)
            (λ w. Grows-refl p w.store) (call_contract-Extends tx act from))

  check_nonce-Extends :
      (tx : Transaction) (act from : Actor) (w : World p)
      → Extends p w (check_nonce p tx act from w).1
  unfolding check_nonce
  check_nonce-Extends tx act from w = elim (Bool-cases (from.nonce == tx.nonce)) [
    | inl fits ↦ rw fits (run_contract-Extends tx (bumped p tx act from) (bump_nonce from) w)
    | inr other ↦ rw other (Grows-refl p w.store)
  ]

  get_sender-Extends :
      (tx : Transaction) (act : Actor) (w : World p) → Extends p w (get_sender p tx act w).1
  unfolding get_sender get_actor
  get_sender-Extends tx act w = elim (Bool-cases (tx.to =ᵇ tx.sender)) [
    | inl same ↦ rw same (Grows-refl p w.store)
    | inr other ↦ rw other (Grows-refl p w.store)
  ]

  pub actor_exec-Extends : (tx : Transaction) (w : World p) → Extends p w (actor_exec p tx w).1
  unfolding actor_exec get_actor
  actor_exec-Extends tx =
      let receiver = in_context p Context.get_actor (get_actor p tx.to) in
      >>=-relates (Extends p) receiver (λ act. get_sender p tx act >>= check_nonce p tx act)
        (Extends-trans p) (λ w. Grows-refl p w.store)
        (λ act.
          >>=-relates (Extends p) (get_sender p tx act) (check_nonce p tx act) (Extends-trans p)
            (get_sender-Extends tx act) (check_nonce-Extends tx act))

  pub apply_transactions-Extends :
      (txs : List Transaction) (w : World p) → Extends p w (apply_transactions p txs w).1
  unfolding apply_transactions
  apply_transactions-Extends [] w = Grows-refl p w.store
  apply_transactions-Extends (tx ∷ txs) w =
      >>=-relates (Extends p) (actor_exec p tx) (λ _. apply_transactions p txs) (Extends-trans p)
        (actor_exec-Extends tx) (λ _. apply_transactions-Extends txs) w
