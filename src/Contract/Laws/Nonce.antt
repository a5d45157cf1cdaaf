-- ===== src/Contract/Laws/Nonce.antt =====
-- `ActorExec` of contract/state.go and the sender's nonce.
use toychain.Prelude.{◌≡◌, ◌∙◌, ap, ◌=ᵇ◌, =ᵇ→eq, Bool-cases, inl, inr, ◌==◌, arith}
use toychain.Outcome.{ok_injective, ok, Context, wrapping, wrapping-eq-ok}
use toychain.Exec.{◌>>=◌, >>=-eq-ok, lift}
use toychain.Types.Transaction.{Transaction}
use toychain.Types.Block.{Receipt}
use toychain.Platform.{Platform, Actor}
use toychain.Contract.World.{World, get_actor}
use toychain.Contract.Execute.{
  Contract, bump_nonce, get_contract, load_contract_state, get_sender, call_contract, bumped,
  check_nonce, run_contract, actor_exec, in_context,
}
use toychain.Contract.Laws.Actors.{actor_at}

module _ (p : Platform) (tx : Transaction) (w : World p) where
  -- What `ActorExec` has found when it calls the contract.
  pub record Started : Type 0 where
    pub receiver : Actor
    pub sender : Actor
    pub memory : p.Node
    pub is_receiver : actor_at p w tx.to ≡ ok receiver
    pub is_sender : actor_at p w tx.sender ≡ ok sender
    pub nonce : sender.nonce ≡ tx.nonce
    pub is_memory : p.load w.store (bumped p tx receiver sender).memory ≡ ok memory
    pub contract : Contract
    pub is_contract : get_contract p (bumped p tx receiver sender).code ≡ ok contract

  sender_lem :
      (act from : Actor)
      → actor_at p w tx.to ≡ ok act
      → (get_sender p tx act w).0 ≡ ok from
      → actor_at p w tx.sender ≡ ok from
  unfolding get_sender actor_at
  sender_lem act from h e = elim (Bool-cases (tx.to =ᵇ tx.sender)) [
    | inl same ↦
        let own : act ≡ from = ok_injective (rw same at e) in
        rw (← =ᵇ→eq tx.to tx.sender same, ← own) h
    | inr other ↦ wrapping-eq-ok Context.get_actor (get_actor p tx.sender w).0 (rw other at e)
  ]

  get_sender-world : (act : Actor) → (get_sender p tx act w).1 ≡ w
  unfolding get_sender get_actor
  get_sender-world act = ground arith

  run_contract_steps :
      (act from : Actor) {r : Receipt}
      → (run_contract p tx act from w).0 ≡ ok r
      → (memory : p.Node) × (contract : Contract) × (p.load w.store act.memory ≡ ok memory)
        × (get_contract p act.code ≡ ok contract)
        × (run_contract p tx act from w ≡ call_contract p tx act from memory w)
  unfolding run_contract load_contract_state
  run_contract_steps act from {r} h =
      let (contract, e1, r1) =
        >>=-eq-ok (lift (wrapping Context.get_contract (get_contract p act.code)))
          (λ _.
            in_context p Context.state_load (load_contract_state p act.memory)
            >>= call_contract p tx act from)
          w h in
      let (memory, e2, r2) =
        >>=-eq-ok (in_context p Context.state_load (load_contract_state p act.memory))
          (call_contract p tx act from) w {b = r} (cc h) in
      let wrapped = wrapping-eq-ok Context.state_load (load_contract_state p act.memory w).0 e2 in
      (
        memory,
        contract,
        wrapping-eq-ok Context.store_get (p.load w.store act.memory) wrapped,
        wrapping-eq-ok Context.get_contract (get_contract p act.code) e1,
        r1 ∙ r2,
      )

  check_nonce_steps :
      (act from : Actor) {r : Receipt}
      → (check_nonce p tx act from w).0 ≡ ok r
      → (from.nonce ≡ tx.nonce)
        × ((memory : p.Node) × (contract : Contract) × (p.load w.store (bumped p tx act from).memory
              ≡ ok memory)
            × (get_contract p (bumped p tx act from).code ≡ ok contract)
            × (check_nonce p tx act from w
                ≡ call_contract p tx (bumped p tx act from) (bump_nonce from) memory w))
  check_nonce_steps act from {r} h = elim (Bool-cases (from.nonce == tx.nonce)) [
    | inl fresh ↦
        let runs : check_nonce p tx act from w
            ≡ run_contract p tx (bumped p tx act from) (bump_nonce from) w =
          unfold check_nonce in rw fresh in
        let (memory, contract, loaded, code, e) =
          run_contract_steps (bumped p tx act from) (bump_nonce from) {r = r} (cc (h, runs)) in
        (ground arith, (memory, contract, loaded, code, runs ∙ e))
    | inr stale ↦ absurd (unfold check_nonce in cc (rw stale at h))
  ]

  -- A run that returns a receipt got as far as the call.
  pub actor_exec-Started :
      {r : Receipt}
      → (actor_exec p tx w).0 ≡ ok r
      → (s : Started) × (actor_exec p tx w
          ≡ call_contract p tx (bumped p tx s.receiver s.sender) (bump_nonce s.sender) s.memory w)
  unfolding actor_exec get_actor actor_at
  actor_exec-Started {r} h =
      let (act, e1, r1) =
        >>=-eq-ok (in_context p Context.get_actor (get_actor p tx.to))
          (λ act. get_sender p tx act >>= check_nonce p tx act) w h in
      let is_receiver : actor_at p w tx.to ≡ ok act =
        wrapping-eq-ok Context.get_actor (actor_at p w tx.to) e1 in
      let (from, e2, r2) =
        >>=-eq-ok (get_sender p tx act) (check_nonce p tx act) w {b = r} (cc h) in
      let is_sender : actor_at p w tx.sender ≡ ok from = sender_lem act from is_receiver e2 in
      let reached : actor_exec p tx w ≡ check_nonce p tx act from w =
        r1 ∙ r2 ∙ ap (check_nonce p tx act from) (get_sender-world act) in
      let (nonce, (memory, contract, loaded, code, e)) =
        check_nonce_steps act from {r = r} (cc (h, reached)) in
      (
        record {
          receiver = act;
          sender = from;
          memory = memory;
          is_receiver = is_receiver;
          is_sender = is_sender;
          nonce = nonce;
          is_memory = loaded;
          contract = contract;
          is_contract = code;
        },
        reached ∙ e,
      )
