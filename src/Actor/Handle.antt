-- ===== src/Actor/Handle.antt =====
-- rust/engine/crates/app_core/src/engine/actor/handle.rs, and `EngineActor::spawn` of state.rs: what
-- callers do with the actor. The mailbox of commands is part of the state of the actor. Of the other
-- lanes a parameter says how many messages wait in them, and whether the actor still receives.
use media_app.Prelude.{
  ℕ, Bool, true, false, Option, none, some, [], ◌∷◌, ◌++◌, ◌+◌, ◌%◌, ◌^◌, ◌==◌, leb, length, ◌⊎◌,
  inl, inr, if◌then◌else◌,
}
use media_app.Actor.Core.{EngineCore}
use media_app.Actor.Operation.{default_generations}
use media_app.Actor.Protocol.{
  ActorConfig, ActorLane, ActorStartError, EngineInput, SubmissionError, invalid_capacity,
  invalid_tick_interval, runtime_not_implemented, mailbox_full, shutting_down, channel_closed,
}
use media_app.Actor.State.{ActorState}

-- `Result<T, SubmissionError>`.
pub data Submission (A : Type 0) : Type 0 where
  accepted : A → Submission A
  refused : SubmissionError → Submission A

-- `Sender::try_send` and `map_try_send_error`: why the message is not taken, if it is not.
unfoldable pub try_send : ActorLane → ℕ → ℕ → Bool → Option SubmissionError
try_send lane capacity waiting is_open =
    if is_open
    then (if leb capacity waiting then some (mailbox_full lane capacity) else none)
    else some (channel_closed lane)

module _ {E : Type 0} where
  -- `try_submit`, `submit_and_wait` and `submit_platform_event_and_wait`, up to the wait. An
  -- identifier is used up whether the message is taken or not.
  unfoldable pub submit : Bool → EngineInput → Bool → ℕ → ActorState E → Submission ℕ × ActorState E
  unfolding try_send
  submit is_open input has_response now a =
      if a.shutting_down
      then (refused shutting_down, a)
      else let numbered = record a { next_command_id = (a.next_command_id + 1) % 2 ^ 64 } in
        elim (try_send ActorLane.command a.config.command_capacity (length a.command_queue)
          is_open) [
            | some error ↦ (refused error, numbered)
            | none ↦ (
              accepted a.next_command_id,
              record numbered {
                command_queue =
                    a.command_queue
                    ++ record {
                      command_id = a.next_command_id;
                      input = input;
                      now_epoch_millis = now;
                      has_response = has_response;
                    }
                      ∷ [];
              },
            )
          ]

  -- `try_publish_player_edge`, `try_complete_operation` and `try_send_control`: the lane, its
  -- capacity, and how many messages wait in it.
  unfoldable pub offer : ActorLane → ℕ → ℕ → Bool → ActorState E → Submission (Unit {0})
  unfolding try_send
  offer lane capacity waiting is_open a =
      if a.shutting_down
      then refused shutting_down
      else elim (try_send lane capacity waiting is_open) [
        | some error ↦ refused error
        | none ↦ accepted tt
      ]

  -- `request_shutdown`: once the message is in its lane, nothing more is submitted.
  unfoldable pub request_shutdown : ℕ → Bool → ActorState E → Submission (Unit {0}) × ActorState E
  unfolding offer
  request_shutdown waiting is_open a =
      elim (offer ActorLane.lifecycle a.config.lifecycle_capacity waiting is_open a) [
        | refused error ↦ (refused error, a)
        | accepted u ↦ (accepted u, record a { shutting_down = true })
      ]

-- The checks of `EngineActor::spawn`, in their order; the last is whether a runtime is entered.
unfoldable pub start_error : ActorConfig → Bool → Option ActorStartError
start_error config has_runtime =
    if config.command_capacity == 0
    then some (invalid_capacity ActorLane.command)
    else (if config.operation_completion_capacity == 0
        then some (invalid_capacity ActorLane.operation_completion)
        else (if config.player_edge_capacity == 0
            then some (invalid_capacity ActorLane.player_edge)
            else (if config.lifecycle_capacity == 0
                then some (invalid_capacity ActorLane.lifecycle)
                else (if config.outcome_capacity == 0
                    then some (invalid_capacity ActorLane.outcome)
                    else (if config.tick_interval == 0
                        then some invalid_tick_interval
                        else (if has_runtime then none else some runtime_not_implemented))))))

module _ {E : Type 0} (core : EngineCore E) where
  -- The state that `spawn` starts the actor with.
  unfoldable pub initial_state : E → ActorConfig → ActorState E
  initial_state engine config =
      let auth = (core.snapshot engine).auth_state in
      let engine' = core.sync_auth_state_projection auth engine in
      record {
        engine = engine';
        auth_state = auth;
        latest = record { revision = 0; message_sequence = 0; snapshot = core.snapshot engine' };
        command_queue = [];
        next_command_id = 1;
        shutting_down = false;
        config = config;
        generations = default_generations;
        next_message_sequence = 0;
        next_operation_id = 1;
        accepted_commands = [];
        terminal_commands = [];
        command_responses = [];
        pending_operations = [];
        latest_epoch_millis = config.start_epoch_millis;
        events = [];
        responses = [];
      }

  unfoldable pub spawn : Bool → E → ActorConfig → ActorStartError ⊎ ActorState E
  unfolding start_error initial_state
  spawn has_runtime engine config = elim (start_error config has_runtime) [
    | some error ↦ inl error
    | none ↦ inr (initial_state engine config)
  ]
