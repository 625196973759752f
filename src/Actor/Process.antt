-- ===== src/Actor/Process.antt =====
-- rust/engine/crates/app_core/src/engine/actor/state.rs: what the actor does with each message. The
-- loop of `run` takes one message after another, from the lane that its `select!` prefers; a step
-- is given here for any message, so that a sequence of steps covers every order.
use media_app.Prelude.{ℕ, true, Option, none, some, List, [], ◌∷◌, if◌then◌else◌}
use media_app.Model.Auth.{AuthState, same_auth_state}
use media_app.Model.Command.{EngineCommandType}
use media_app.Model.Snapshot.{EngineSnapshot}
use media_app.Actor.Core.{EngineCore, EngineOutcome}
use media_app.Actor.Operation.{EngineOperation}
use media_app.Actor.Protocol.{
  ActorControl, ActorEvent, ActorFailure, ActorOutcomeStatus, CommandMessage, EngineInput,
  LifecycleMessage, Message, cancelled, failed, shutdown_requested, panicked,
}
use media_app.Actor.State.{
  ActorState, contains, next_sequence, send_event, publish_snapshot, emit_outcome, accept_command,
  drain_queued_commands, observe_clock,
}
use media_app.Actor.Generations.{bump_identity_generations}
use media_app.Actor.Prepare.{prepare_operation}
use media_app.Actor.Completion.{
  complete, insert_pending, process_operation_completion, spawn_operation_worker, without_dispatch,
}

-- What a message leaves: the actor goes on, or it has returned `Ok(ActorExit)` or `Err`, or a panic
-- that nothing catches has ended its task.
pub data StepResult (E : Type 0) : Type 0 where
  running : ActorState E → StepResult E
  exited : List ℕ → ActorState E → StepResult E
  stopped : ActorFailure → ActorState E → StepResult E
  aborted : StepResult E

-- `outcomes.last()`, or the snapshot of the engine.
unfoldable last_snapshot : EngineSnapshot → List EngineOutcome → EngineSnapshot
last_snapshot snapshot [] = snapshot
last_snapshot snapshot (outcome ∷ outcomes) = last_snapshot outcome.snapshot outcomes

module _ {E : Type 0} where
  -- A panic that ends the task, or the state to go on with.
  abbrev pub go_on : Option (ActorState E) → StepResult E
  go_on none = aborted
  go_on (some a) = running a

  -- The loops of `Shutdown` and `fail_all`: an outcome for every command that has none.
  unfoldable pub emit_all : ActorOutcomeStatus → List ℕ → ActorState E → ActorState E
  unfolding contains emit_outcome
  emit_all status [] a = a
  emit_all status (id ∷ ids) a =
      let a' = next_sequence a in
      emit_all status ids (
        if contains id a.terminal_commands
        then a
        else emit_outcome (without_dispatch id status a') a')

  unfoldable pub fail_all : ActorFailure → ActorState E → ActorState E
  unfolding emit_all drain_queued_commands
  fail_all failure a =
      let a' = drain_queued_commands a in emit_all (failed failure) a'.accepted_commands a'

  -- The arm of `LifecycleMessage::Shutdown`.
  unfoldable pub shut_down : ActorState E → StepResult E
  unfolding emit_all drain_queued_commands
  shut_down a =
      let drained = drain_queued_commands (record a { shutting_down = true }) in
      let started = next_sequence drained in
      let announced =
        send_event (ActorEvent.shutdown_started started.next_message_sequence) started in
      exited announced.accepted_commands
        (emit_all (cancelled shutdown_requested) announced.accepted_commands announced)

module _ {E : Type 0} (core : EngineCore E) where
  -- The snapshot of the engine is published under the next sequence.
  abbrev pub publish_current : EngineSnapshot → ActorState E → ActorState E
  publish_current snapshot a = publish_snapshot core snapshot (next_sequence a)

  -- A tick; `none` where it panics, which is not caught.
  unfoldable pub process_tick : ℕ → ActorState E → Option (ActorState E)
  unfolding publish_snapshot last_snapshot
  process_tick now a = elim (core.tick a.auth_state now a.engine) [
    | none ↦ none
    | some ticked ↦
        let a' =
          publish_current (last_snapshot (core.snapshot ticked.0) ticked.1)
            (record (observe_clock now a) { engine = ticked.0 }) in
        some (
          send_event (ActorEvent.tick_processed now a'.next_message_sequence a'.latest.revision) a')
  ]

  unfoldable pub process_control : AuthState → ActorState E → ActorState E
  unfolding publish_snapshot bump_identity_generations
  process_control state a =
      let bumped = record a {
        auth_state = state;
        generations =
            if same_auth_state state a.auth_state
            then a.generations
            else bump_identity_generations a.generations;
        engine = core.sync_auth_state_projection state a.engine;
      } in
      let a' = publish_current (core.snapshot bumped.engine) bumped in
      send_event
        (ActorEvent.control_applied (ActorControl.auth_state_changed state) a'.next_message_sequence
          a'.latest.revision)
        a'

  -- A mutation that gives `none` panics.
  unfoldable pub process_mutation : (E → Option E) → ActorState E → Option (ActorState E)
  unfolding publish_snapshot
  process_mutation mutation a = elim (mutation a.engine) [
    | none ↦ none
    | some mutated ↦
        let a' = publish_current (core.snapshot mutated) (record a { engine = mutated }) in
        some (
          send_event
            (ActorEvent.control_applied (ActorControl.auth_state_changed a'.auth_state)
              a'.next_message_sequence a'.latest.revision)
            a')
  ]

  unfoldable pub process_lifecycle : LifecycleMessage E → ActorState E → StepResult E
  unfolding process_control process_mutation process_tick shut_down
  process_lifecycle (LifecycleMessage.control (ActorControl.auth_state_changed state)) a =
      running (process_control state a)
  process_lifecycle (LifecycleMessage.manual_tick now) a = go_on (process_tick now a)
  process_lifecycle (LifecycleMessage.mutate_engine mutation) a =
      go_on (process_mutation mutation a)
  process_lifecycle LifecycleMessage.shutdown a = shut_down a

  -- What follows a dispatch that `catch_unwind` guards.
  unfoldable pub finish : ℕ → Option (E × EngineOutcome) → ActorState E → StepResult E
  unfolding complete fail_all
  finish command_id none a = stopped panicked (fail_all panicked a)
  finish command_id (some dispatched) a =
      running (complete core command_id dispatched (next_sequence a))

  -- The operation that was launched: it is pending, and announced.
  unfoldable pub launch : EngineOperation → EngineCommandType → ℕ → ActorState E → ActorState E
  unfolding insert_pending
  launch operation command now a =
      let a' = next_sequence (record a {
        pending_operations =
            insert_pending operation.operation_id
              (record { operation = operation; command = command; now_epoch_millis = now })
              a.pending_operations;
      }) in
      send_event (ActorEvent.operation_launched operation a'.next_message_sequence) a'

  abbrev pub inline_command : ℕ → EngineCommandType → ℕ → ActorState E → StepResult E
  inline_command command_id command now a =
      finish command_id (core.dispatch a.auth_state command now a.engine) a

  -- The split path where the command has one and its worker starts, otherwise the inline path.
  unfoldable pub run_prepared :
      ℕ
      → EngineCommandType
      → ℕ
      → ActorState E
      → Option (EngineOperation × ActorState E)
      → StepResult E
  unfolding spawn_operation_worker launch finish
  run_prepared command_id command now a none = inline_command command_id command now a
  run_prepared command_id command now a (some prepared) =
      if spawn_operation_worker core prepared.0.request prepared.1
      then running (launch prepared.0 command now prepared.1)
      else inline_command command_id command now prepared.1

  unfoldable pub run_command : ℕ → EngineCommandType → ℕ → ActorState E → StepResult E
  unfolding prepare_operation run_prepared
  run_command command_id command now a =
      if a.config.split_remote_operations
      then run_prepared command_id command now a (prepare_operation core command_id command a)
      else inline_command command_id command now a

  unfoldable pub run_input : ℕ → EngineInput → ℕ → ActorState E → StepResult E
  unfolding run_command finish
  run_input command_id (EngineInput.command command) now a = run_command command_id command now a
  run_input command_id (EngineInput.platform_event event) now a =
      finish command_id (core.dispatch_platform_event a.auth_state event now a.engine) a

  unfoldable pub process_command : CommandMessage → ActorState E → StepResult E
  unfolding accept_command run_input
  process_command message a =
      let now = message.now_epoch_millis in
      run_input message.command_id message.input now (accept_command message (observe_clock now a))

  -- The next message of the mailbox, which is not read once the actor shuts down.
  unfoldable pub process_next : List CommandMessage → ActorState E → StepResult E
  unfolding process_command
  process_next [] a = running a
  process_next (message ∷ messages) a =
      if a.shutting_down
      then running a
      else process_command message (record a { command_queue = messages })

  unfoldable pub step : Message E → ActorState E → StepResult E
  unfolding process_lifecycle process_operation_completion process_tick process_next fail_all
  step (Message.lifecycle message) a = process_lifecycle message a
  step (Message.player_edge event) a =
      let a' = next_sequence a in
      running (send_event (ActorEvent.player_edge_applied event a'.next_message_sequence) a')
  step (Message.completion completion) a = go_on (process_operation_completion core completion a)
  step (Message.player_facts facts) a =
      let a' = next_sequence a in
      running (send_event (ActorEvent.player_facts_applied facts a'.next_message_sequence) a')
  step (Message.tick now) a = go_on (process_tick now a)
  step Message.next_command a = process_next a.command_queue a
  step Message.command_channel_closed a =
      if a.shutting_down
      then running a
      else stopped ActorFailure.command_channel_closed
          (fail_all ActorFailure.command_channel_closed a)
