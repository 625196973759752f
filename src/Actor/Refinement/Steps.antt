-- ===== src/Actor/Refinement/Steps.antt =====
-- rust/engine/crates/app_core/src/engine/actor/state.rs and state/operations.rs: every step of the
-- actor follows a rule of the ledger, or ends it.
use media_app.Prelude.{
  ℕ, ◌≡◌, refl, sym, ap, ◌∙◌, Bool, true, false, Option, none, some, List, [], ◌∷◌, Option-cases,
  inl, inr, arith, if◌then◌else◌,
}
use media_app.Model.Command.{EngineCommandType}
use media_app.Actor.Core.{EngineCore, EngineOutcome}
use media_app.Actor.Operation.{EngineOperation, EngineOperationCompletion}
use media_app.Actor.Protocol.{
  ActorEvent, ActorFailure, ActorOutcomeStatus, cancelled, failed, shutdown_requested, Message,
  panicked,
}
use media_app.Actor.State.{
  ActorState, PendingOperation, emit_outcome, publish_snapshot, next_sequence, send_event,
  drain_queued_commands,
}
use media_app.Actor.Completion.{
  find_pending, redispatch, process_operation_completion, complete, spawn_operation_worker,
}
use media_app.Actor.Prepare.{prepare_operation}
use media_app.Actor.Process.{
  StepResult, running, exited, stopped, aborted, fail_all, shut_down, finish, launch, run_prepared,
  run_command, inline_command, go_on, emit_all,
}
use media_app.Actor.Ledger.{
  Ledger, accept, accept_each, conclude, settle_open, drain, close, unpark, ◌⇒◌, idle, answered,
  launched, completed,
}
use media_app.Actor.Refinement.{
  ledger, outcome_ids, ledger-prepare, ledger-complete, ledger-launch, ledger-drain,
  ledger-emit_all, find_pending-find_key, pending_ids-remove_pending,
}

-- What a step makes of a ledger: a rule while the actor goes on, its end where the actor returns.
unfoldable pub Refines : {E : Type 0} → Ledger → StepResult E → Type 0
Refines l (running a) = l ⇒ ledger a
Refines l (exited ids a) = (ledger a ≡ close l) × (ids ≡ (close l).accepted)
Refines l (stopped failure a) = ledger a ≡ close l
Refines l aborted = Unit {0}

-- A completion names the command of the operation that it completes.
unfoldable pub IsGenuine : {E : Type 0} → ActorState E → Message E → Type 0
IsGenuine a (Message.completion c) =
    (p : PendingOperation)
    → find_pending c.operation_id a.pending_operations ≡ some p
    → (p.operation.command_id ≡ c.command_id)
IsGenuine a _ = Unit {0}

settle_open-accepted : (ids : List ℕ) (l : Ledger) → (settle_open ids l).accepted ≡ l.accepted
unfolding settle_open
settle_open-accepted [] l = refl
settle_open-accepted (id ∷ ids) l =
    ground (arith, settle_open-accepted ids l, settle_open-accepted ids (conclude id l))

-- Accepting reads no mailbox.
accept-queued :
    (id : ℕ) (q : List ℕ) (l : Ledger)
    → (accept id (record l { queued = q }) ≡ record (accept id l) { queued = q })
unfolding accept
accept-queued id q l = ground arith

accept_each-queued :
    (ids : List ℕ) (q : List ℕ) (l : Ledger)
    → (accept_each ids (record l { queued = q }) ≡ record (accept_each ids l) { queued = q })
unfolding accept_each
accept_each-queued [] q l = refl
accept_each-queued (id ∷ ids) q l =
    ap (accept_each ids) (accept-queued id q l) ∙ accept_each-queued ids q (accept id l)

abbrev emptied : Ledger → Ledger
emptied l = record l { queued = [] }

-- The end of the actor is the same once the head of the mailbox is accepted.
close-accept :
    (id : ℕ) (ids : List ℕ) (l : Ledger)
    → l.queued ≡ id ∷ ids
    → (close (accept id (record l { queued = ids })) ≡ close l)
unfolding close drain accept_each
close-accept id ids l q =
    let read : drain (record (accept id l) { queued = ids }) ≡ drain l =
      ap emptied (accept_each-queued ids ids (accept id l))
      ∙ ap (λ qs. emptied (accept_each qs l)) (sym q) in
    ap (λ m. settle_open m.accepted m) (ap drain (accept-queued id ids l) ∙ read)

module _ {E : Type 0} where
  -- The commands that are open in a drained actor get their outcome.
  emit_all-close :
      (status : ActorOutcomeStatus) (d : ActorState E) (l : Ledger)
      → ledger d ≡ drain l
      → (ledger (emit_all status d.accepted_commands d) ≡ close l)
        × (d.accepted_commands ≡ (close l).accepted)
  unfolding ledger close
  emit_all-close status d l h = (
    ledger-emit_all status d.accepted_commands d ∙ ap (λ m. settle_open m.accepted m) h,
    ap (λ m. m.accepted) h ∙ sym (settle_open-accepted (drain l).accepted (drain l)),
  )

  pub fail_all-close :
      (failure : ActorFailure) (a : ActorState E) → (ledger (fail_all failure a) ≡ close (ledger a))
  unfolding fail_all
  fail_all-close failure a =
      (emit_all-close (failed failure) (drain_queued_commands a) (ledger a) (ledger-drain a)).0

  pub shut_down-close : (a : ActorState E) → Refines (ledger a) (shut_down a)
  unfolding Refines shut_down ledger outcome_ids
  shut_down-close a =
      let drained = drain_queued_commands (record a { shutting_down = true }) in
      let started = next_sequence drained in
      emit_all-close (cancelled shutdown_requested)
        (send_event (ActorEvent.shutdown_started started.next_message_sequence) started) (ledger a)
        (ledger-drain (record a { shutting_down = true }))

module _ {E : Type 0} (core : EngineCore E) where
  completion-conclude :
      (c : EngineOperationCompletion) (a a' : ActorState E) (p : PendingOperation)
      → find_pending c.operation_id a.pending_operations ≡ some p
      → process_operation_completion core c a ≡ some a'
      → (ledger a' ≡ conclude c.command_id (unpark c.operation_id (ledger a)))
  unfolding ledger process_operation_completion redispatch complete publish_snapshot emit_outcome
      outcome_ids unpark
  completion-conclude c a a' p e h =
      ground (arith, pending_ids-remove_pending c.operation_id a.pending_operations)

  pub completion-⇒ :
      (c : EngineOperationCompletion) (a : ActorState E)
      → IsGenuine a (Message.completion c)
      → Refines (ledger a) (go_on (process_operation_completion core c a))
  unfolding IsGenuine Refines process_operation_completion ledger
  completion-⇒ c a g = elim (Option-cases (find_pending c.operation_id a.pending_operations)) [
    | inl e ↦ rw (e, Refines, process_operation_completion) idle
    | inr (p, e) ↦ elim (Option-cases (process_operation_completion core c a)) [
      | inl n ↦ rw (n, Refines) tt
      | inr (a', h) ↦
          rw (h, Refines, completion-conclude c a a' p e h, sym (g p e))
            (completed c.operation_id p.operation.command_id
              (find_pending-find_key c.operation_id a.pending_operations p e))
    ]
  ]

  -- What becomes of the head of the mailbox, where the ledger is that after it was accepted.
  pub finish-⇒ :
      (id : ℕ) (ids : List ℕ) (d : Option (E × EngineOutcome)) (l : Ledger) (a : ActorState E)
      → l.queued ≡ id ∷ ids
      → ledger a ≡ accept id (record l { queued = ids })
      → Refines l (finish core id d a)
  unfolding Refines finish ledger
  finish-⇒ id ids none l a q h = fail_all-close panicked a ∙ ap close h ∙ close-accept id ids l q
  finish-⇒ id ids (some d) l a q h =
      let same : ledger (next_sequence a) ≡ accept id (record l { queued = ids }) = h in
      rw (ledger-complete core id d (next_sequence a) ∙ ap (conclude id) same) (answered id ids q)

  launch-⇒ :
      (id : ℕ) (ids : List ℕ) (operation : EngineOperation) (c : EngineCommandType) (now : ℕ)
      → (l : Ledger) (a : ActorState E) → l.queued ≡ id ∷ ids
      → operation.command_id ≡ id
      → ledger a ≡ accept id (record l { queued = ids })
      → Refines l (running (launch core operation c now a))
  unfolding Refines
  launch-⇒ id ids operation c now l a q i h =
      rw (ledger-launch core operation c now a, h, i) (launched id ids operation.operation_id q)

  pub if-Refines :
      (b : Bool) (l : Ledger) (s t : StepResult E)
      → Refines l s
      → Refines l t
      → Refines l (if b then s else t)
  if-Refines true l s t x y = x
  if-Refines false l s t x y = y

  run_prepared-⇒ :
      (id : ℕ) (ids : List ℕ) (c : EngineCommandType) (now : ℕ) (l : Ledger) (a : ActorState E)
      → (prepared : Option (EngineOperation × ActorState E)) → l.queued ≡ id ∷ ids
      → ledger a ≡ accept id (record l { queued = ids })
      → ((x : EngineOperation × ActorState E)
          → prepared ≡ some x
          → (x.0.command_id ≡ id) × (ledger x.1 ≡ ledger a))
      → Refines l (run_prepared core id c now a prepared)
  unfolding run_prepared
  run_prepared-⇒ id ids c now l a none q h facts =
      finish-⇒ id ids (core.dispatch a.auth_state c now a.engine) l a q h
  run_prepared-⇒ id ids c now l a (some x) q h facts =
      let known = facts x refl in
      let same = known.1 ∙ h in
      if-Refines (spawn_operation_worker core x.0.request x.1) l
        (running (launch core x.0 c now x.1)) (inline_command core id c now x.1)
        (launch-⇒ id ids x.0 c now l x.1 q known.0 same)
        (finish-⇒ id ids (core.dispatch x.1.auth_state c now x.1.engine) l x.1 q same)

  pub run_command-⇒ :
      (id : ℕ) (ids : List ℕ) (c : EngineCommandType) (now : ℕ) (l : Ledger) (a : ActorState E)
      → l.queued ≡ id ∷ ids
      → ledger a ≡ accept id (record l { queued = ids })
      → Refines l (run_command core id c now a)
  unfolding run_command
  run_command-⇒ id ids c now l a q h =
      let prepared = prepare_operation core id c a in
      if-Refines a.config.split_remote_operations l (run_prepared core id c now a prepared)
        (inline_command core id c now a)
        (run_prepared-⇒ id ids c now l a prepared q h (λ x e. ledger-prepare core id c a e))
        (finish-⇒ id ids (core.dispatch a.auth_state c now a.engine) l a q h)
