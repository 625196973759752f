-- ===== src/Actor/Refinement.antt =====
-- rust/engine/crates/app_core/src/engine/actor/state.rs and state/operations.rs: the actor seen as a
-- ledger of commands, and what its helpers do to the ledger.
pub mod Steps
pub mod Reached
use media_app.Prelude.{
  ℕ, ◌≡◌, refl, ap, ◌∙◌, Bool, true, false, Option, none, some, List, [], ◌∷◌, ◌++◌, map,
  Bool-cases, inl, inr, arith, if◌then◌else◌,
}
use media_app.Model.Auth.{AuthState}
use media_app.Model.Command.{EngineCommandType}
use media_app.Model.Snapshot.{EngineSnapshot}
use media_app.Actor.Core.{EngineCore, EngineOutcome}
use media_app.Actor.Operation.{EngineOperation, EngineOperationCompletion}
use media_app.Actor.Protocol.{ActorEvent, ActorOutcomeStatus, CommandMessage}
use media_app.Actor.State.{
  ActorState, PendingOperation, contains, publish_snapshot, snapshots_equal_for_revision,
  next_sequence, emit_outcome, accept_command, accept_all, drain_queued_commands,
}
use media_app.Actor.Prepare.{
  allocate_operation, prepare_library_page, prepare_library_continuation, prepare_library_mutation,
  prepare_operation,
}
use media_app.Actor.Ledger.{
  Ledger, conclude, accept, accept_each, drain, settle_open, close, find_key, remove_key, park,
  unpark,
}
use media_app.Actor.Completion.{
  complete, find_pending, insert_pending, remove_pending, redispatch, process_operation_completion,
  prefetched_from, is_superseded, without_dispatch,
}
use media_app.Actor.Process.{
  StepResult, running, process_tick, process_control, process_mutation, launch, emit_all,
}

unfoldable pub outcome_ids : List ActorEvent → List ℕ
outcome_ids [] = []
outcome_ids (ActorEvent.command_outcome outcome ∷ events) = outcome.command_id ∷ outcome_ids events
outcome_ids (_ ∷ events) = outcome_ids events

unfoldable pub queued_ids : List CommandMessage → List ℕ
queued_ids [] = []
queued_ids (message ∷ messages) = message.command_id ∷ queued_ids messages

unfoldable pub pending_ids : List (ℕ × PendingOperation) → List (ℕ × ℕ)
pending_ids [] = []
pending_ids ((key, pending) ∷ rest) = (key, pending.operation.command_id) ∷ pending_ids rest

unfoldable pub ledger : {E : Type 0} → ActorState E → Ledger
unfolding outcome_ids queued_ids pending_ids
ledger a = record {
  next = a.next_command_id;
  queued = queued_ids a.command_queue;
  accepted = a.accepted_commands;
  pending = pending_ids a.pending_operations;
  terminal = a.terminal_commands;
  outcomes = outcome_ids a.events;
}

pub find_pending-find_key :
    (key : ℕ) (ps : List (ℕ × PendingOperation)) (p : PendingOperation)
    → find_pending key ps ≡ some p
    → (find_key key (pending_ids ps) ≡ some p.operation.command_id)
unfolding find_pending find_key pending_ids
find_pending-find_key key [] p h = ground arith
find_pending-find_key key ((k, q) ∷ ps) p h = ground (arith, find_pending-find_key key ps p)

pub pending_ids-remove_pending :
    (key : ℕ) (ps : List (ℕ × PendingOperation))
    → (pending_ids (remove_pending key ps) ≡ remove_key key (pending_ids ps))
unfolding remove_pending remove_key pending_ids
pending_ids-remove_pending key [] = refl
pending_ids-remove_pending key ((k, q) ∷ ps) = ground (arith, pending_ids-remove_pending key ps)

module _ {E : Type 0} (core : EngineCore E) where
  pub ledger-publish :
      (snapshot : EngineSnapshot) (a : ActorState E)
      → (ledger (publish_snapshot core snapshot a) ≡ ledger a)
  unfolding ledger publish_snapshot
  ledger-publish snapshot a =
      elim (Bool-cases (snapshots_equal_for_revision core a.latest.snapshot snapshot)) [
        | inl e ↦ rw (e, if◌then◌else◌)
        | inr e ↦ rw (e, if◌then◌else◌)
      ]

  -- What is prepared has the identifier of the command, and leaves the ledger.
  pub ledger-prepare :
      (id : ℕ) (c : EngineCommandType) (a : ActorState E) {x : EngineOperation × ActorState E}
      → prepare_operation core id c a ≡ some x
      → (x.0.command_id ≡ id) × (ledger x.1 ≡ ledger a)
  unfolding ledger prepare_operation allocate_operation prepare_library_page
      prepare_library_continuation prepare_library_mutation
  ledger-prepare id c a h = ground arith

  pub ledger-complete :
      (id : ℕ) (d : E × EngineOutcome) (a : ActorState E)
      → (ledger (complete core id d a) ≡ conclude id (ledger a))
  unfolding ledger complete publish_snapshot emit_outcome
  ledger-complete id d a = ground arith

  pub ledger-tick :
      (now : ℕ) (a : ActorState E) {a' : ActorState E}
      → process_tick core now a ≡ some a'
      → (ledger a' ≡ ledger a)
  unfolding ledger process_tick publish_snapshot
  ledger-tick now a h = ground arith

  pub ledger-control :
      (state : AuthState) (a : ActorState E) → (ledger (process_control core state a) ≡ ledger a)
  unfolding ledger process_control publish_snapshot
  ledger-control state a = ground arith

  pub ledger-mutation :
      (mutation : E → Option E) (a : ActorState E) {a' : ActorState E}
      → process_mutation core mutation a ≡ some a'
      → (ledger a' ≡ ledger a)
  unfolding ledger process_mutation publish_snapshot
  ledger-mutation mutation a h = ground arith

  pub ledger-launch :
      (operation : EngineOperation) (c : EngineCommandType) (now : ℕ) (a : ActorState E)
      → (ledger (launch core operation c now a)
          ≡ park operation.operation_id operation.command_id (ledger a))
  unfolding ledger launch insert_pending park pending_ids outcome_ids
  ledger-launch operation c now a =
      rw (pending_ids-remove_pending operation.operation_id a.pending_operations)

module _ {E : Type 0} where
  pub ledger-accept :
      (message : CommandMessage) (a : ActorState E)
      → (ledger (accept_command message a) ≡ accept message.command_id (ledger a))
  unfolding ledger accept_command accept
  ledger-accept message a = ground arith

  ledger-accept_all :
      (messages : List CommandMessage) (a : ActorState E)
      → (ledger (accept_all messages a) ≡ accept_each (queued_ids messages) (ledger a))
  unfolding accept_all accept_each queued_ids
  ledger-accept_all [] a = refl
  ledger-accept_all (m ∷ ms) a = rw (ledger-accept_all ms (accept_command m a), ledger-accept m a)

  pub ledger-drain : (a : ActorState E) → (ledger (drain_queued_commands a) ≡ drain (ledger a))
  unfolding ledger drain_queued_commands drain queued_ids
  ledger-drain a =
      ap {A = Ledger} (λ l. record l { queued = [] }) (ledger-accept_all a.command_queue a)

  ledger-open :
      (status : ActorOutcomeStatus) (id : ℕ) (a : ActorState E)
      → (ledger (
            if contains id a.terminal_commands
            then a
            else emit_outcome (without_dispatch id status (next_sequence a)) (next_sequence a))
          ≡ (if contains id a.terminal_commands then ledger a else conclude id (ledger a)))
  unfolding ledger emit_outcome outcome_ids
  ledger-open status id a = ground arith

  pub ledger-emit_all :
      (status : ActorOutcomeStatus) (ids : List ℕ) (a : ActorState E)
      → (ledger (emit_all status ids a) ≡ settle_open ids (ledger a))
  unfolding ledger emit_all settle_open
  ledger-emit_all status [] a = refl
  ledger-emit_all status (id ∷ ids) a =
      let a' = next_sequence a in
      let opened =
        if contains id a.terminal_commands
        then a
        else emit_outcome (without_dispatch id status a') a' in
      ledger-emit_all status ids opened ∙ ap (settle_open ids) (ledger-open status id a)
