-- ===== src/Tests/Actors.antt =====
-- Tests of the actor, around an engine that is its snapshot.
use media_app.Prelude.{ℕ, ◌≡◌, refl, true, false, Option, none, some, List, [], arith}
use media_app.Model.Auth.{AuthState, same_auth_state}
use media_app.Model.Command.{EngineCommandType}
use media_app.Model.Effect.{EngineEvent}
use media_app.Model.Error.{ok}
use media_app.Model.Snapshot.{EngineSnapshot}
use media_app.Actor.Core.{EngineCore, EngineOutcome}
use media_app.Actor.Operation.{
  EngineOperationCompletion, EngineOperationRequest, EngineOperationResult, OperationGeneration,
  is_current,
}
use media_app.Actor.Protocol.{
  ActorFailure, EngineInput, LifecycleMessage, Message, default_actor_config,
}
use media_app.Actor.State.{
  ActorState, PendingOperation, accept_all, accept_command, contains, drain_queued_commands,
  emit_outcome, publish_snapshot, remove_id, snapshots_equal_for_revision,
}
use media_app.Actor.Process.{
  StepResult, running, exited, stopped, step, process_control, process_next, process_command,
  run_input, run_command, run_prepared, launch, finish, fail_all, emit_all,
}
use media_app.Actor.Prepare.{allocate_operation, prepare_operation}
use media_app.Actor.Completion.{
  find_pending, insert_pending, remove_pending, spawn_operation_worker,
  process_operation_completion,
}
use media_app.Actor.Handle.{initial_state, submit, try_send}
use media_app.Actor.Ledger.Closing.{IsClosed}
use media_app.Actor.Ledger.Invariant.{unique}
use media_app.Actor.Refinement.{ledger, outcome_ids}
use media_app.Actor.Refinement.Steps.{Refines, IsGenuine}
use media_app.Actor.Refinement.Reached.{step-⇒}
use media_app.Actor.Promise.{
  Reached, starts, goes, submits, takes, outcomes_once, shutdown_answers, failure_answers,
}
use media_app.Actor.Staleness.{number}
use media_app.Actor.Staleness.Superseded.{IsSuperseded, auth_change_supersedes, done}
use media_app.Tests.Fixtures.{playing_snapshot}

abbrev applied : EngineEvent
applied = record {
  event_type = media_app.Model.Effect.EngineEventType.command_applied;
  message = none;
}

abbrev outcome_of : EngineSnapshot → EngineOutcome
outcome_of s = record { snapshot = s; event = applied; effects = [] }

-- An engine that panics on `Bootstrap` and applies everything else without a change.
abbrev plain_dispatch : EngineCommandType → EngineSnapshot → Option (EngineSnapshot × EngineOutcome)
plain_dispatch EngineCommandType.bootstrap s = none
plain_dispatch _ s = some (s, outcome_of s)

abbrev plain_core : EngineCore EngineSnapshot
plain_core = record {
  dispatch = λ auth c now s. plain_dispatch c s;
  dispatch_platform_event = λ auth event now s. some (s, outcome_of s);
  tick = λ auth now s. some (s, []);
  snapshot = λ s. s;
  same_snapshot = λ s t. true;
  sync_auth_state_projection = λ auth s. record s { auth_state = auth };
  set_prefetched_operation = λ prefetched s. s;
  account_port = λ s. false;
  playlist_port = λ s. false;
  history_port = λ s. false;
  library_port = λ s. false;
  playback_port = λ s. true;
  catalog_continuation = λ id s. none;
  pending_anonymous_history = λ s. [];
  bounded_history_page = λ page. page;
  history_settings_enabled = λ s. none;
  history_continuation = λ s. none;
  library_continuation = λ saved s. none;
}

abbrev Plain : Type 0
Plain = ActorState EngineSnapshot

abbrev started : Plain
unfolding initial_state
started = initial_state plain_core playing_snapshot default_actor_config

abbrev submitted_one : EngineCommandType → Plain → Plain
unfolding submit
submitted_one c a = (submit true (EngineInput.command c) true 1000 a).1

-- The state with which the actor goes on.
abbrev after : StepResult EngineSnapshot → Plain
unfolding started
after (running a) = a
after (exited ids a) = a
after (stopped failure a) = a
after media_app.Actor.Process.aborted = started

-- "dawn" is wanted: its operation is pending.
abbrev resolving : Plain
unfolding initial_state submit try_send step process_next process_command run_input run_command
    run_prepared prepare_operation allocate_operation spawn_operation_worker launch insert_pending
    remove_pending finish accept_command contains started submitted_one after
resolving = after (
    step plain_core Message.next_command
      (submitted_one (EngineCommandType.play_media_by_id "dawn") started))

resolving-Reached : Reached plain_core resolving
unfolding initial_state submit try_send step process_next process_command run_input run_command
    run_prepared prepare_operation allocate_operation spawn_operation_worker launch insert_pending
    remove_pending finish accept_command contains IsGenuine started submitted_one resolving after
resolving-Reached =
    goes
      (goes (starts playing_snapshot default_actor_config) (
        submits true (EngineInput.command (EngineCommandType.play_media_by_id "dawn")) true 1000
          (omega arith)))
      (takes Message.next_command tt refl)

outcomes_once_example : unique (outcome_ids resolving.events) ≡ true
outcomes_once_example = outcomes_once plain_core resolving resolving-Reached

shutdown_answers_example :
    (ids : List ℕ) × (b : Plain) × (step plain_core
        (Message.lifecycle LifecycleMessage.shutdown)
        resolving
      ≡ exited ids b)
    × IsClosed (ledger resolving) (ledger b)
    × (ids ≡ b.accepted_commands)
shutdown_answers_example = shutdown_answers plain_core resolving resolving-Reached

-- The command that makes the engine panic.
abbrev panicking : Plain
unfolding initial_state submit try_send step process_next process_command run_input run_command
    run_prepared prepare_operation allocate_operation spawn_operation_worker launch insert_pending
    remove_pending finish accept_command contains IsGenuine started submitted_one resolving after
panicking = submitted_one EngineCommandType.bootstrap resolving

panicking-Reached : Reached plain_core panicking
unfolding initial_state submit try_send step process_next process_command run_input run_command
    run_prepared prepare_operation allocate_operation spawn_operation_worker launch insert_pending
    remove_pending finish accept_command contains IsGenuine started submitted_one resolving
    panicking after
panicking-Reached =
    goes resolving-Reached
      (submits true (EngineInput.command EngineCommandType.bootstrap) true 1000 (omega arith))

abbrev failed_actor : Plain
unfolding initial_state submit try_send step process_next process_command run_input run_command
    run_prepared prepare_operation allocate_operation spawn_operation_worker launch insert_pending
    remove_pending finish fail_all emit_all drain_queued_commands accept_all emit_outcome remove_id
    accept_command contains IsGenuine started submitted_one resolving panicking after
failed_actor = after (step plain_core Message.next_command panicking)

failure_answers_example : IsClosed (ledger panicking) (ledger failed_actor)
unfolding initial_state submit try_send step process_next process_command run_input run_command
    run_prepared prepare_operation allocate_operation spawn_operation_worker launch insert_pending
    remove_pending finish fail_all emit_all drain_queued_commands accept_all emit_outcome remove_id
    accept_command contains IsGenuine started submitted_one resolving panicking failed_actor after
failure_answers_example =
    failure_answers plain_core Message.next_command panicking ActorFailure.panicked failed_actor
      panicking-Reached tt refl

step-⇒_example : Refines (ledger panicking) (step plain_core Message.next_command panicking)
unfolding IsGenuine
step-⇒_example = step-⇒ plain_core Message.next_command panicking tt

abbrev late_completion : EngineOperationCompletion
late_completion = record {
  operation_id = 1;
  command_id = 1;
  generation = OperationGeneration.playback 1;
  result = ok EngineOperationResult.history_deleted;
}

abbrev dawn_pending : PendingOperation
dawn_pending = record {
  operation = record {
    operation_id = 1;
    command_id = 1;
    generation = OperationGeneration.playback 1;
    request = EngineOperationRequest.playback_resolution "dawn";
  };
  command = EngineCommandType.play_media_by_id "dawn";
  now_epoch_millis = 1000;
}

abbrev logged_out : Plain
unfolding process_control publish_snapshot
logged_out = process_control plain_core AuthState.login_required resolving

auth_change_supersedes_example :
    (d : Plain) × (process_operation_completion plain_core late_completion logged_out ≡ some d)
    × IsSuperseded late_completion logged_out d
unfolding initial_state submit try_send step process_next process_command run_input run_command
    run_prepared prepare_operation allocate_operation spawn_operation_worker launch insert_pending
    remove_pending finish accept_command contains IsGenuine started submitted_one resolving
    logged_out after same_auth_state is_current number process_control publish_snapshot
    snapshots_equal_for_revision find_pending
auth_change_supersedes_example =
    auth_change_supersedes plain_core AuthState.login_required resolving logged_out late_completion
      dawn_pending resolving-Reached refl refl (omega arith) done refl
