-- ===== src/Actor/Protocol.antt =====
-- rust/engine/crates/app_core/src/engine/actor/protocol.rs and handle.rs: what the actor is told, and
-- what it reports. Clock settings are in milliseconds.
use media_app.Prelude.{ℕ, Bool, true, Option, List}
use media_app.Model.Auth.{AuthState}
use media_app.Model.Command.{EngineCommandType}
use media_app.Model.Effect.{EngineEffect, EngineEvent}
use media_app.Model.PlatformEvent.{EnginePlatformEvent}
use media_app.Model.Snapshot.{EngineSnapshot}
use media_app.Actor.Operation.{EngineOperation, EngineOperationCompletion}

pub record PublishedSnapshot : Type 0 where
  pub revision : ℕ
  pub message_sequence : ℕ
  pub snapshot : EngineSnapshot

pub record PlayerFacts : Type 0 where
  pub playback_instance_id : ℕ
  pub position_millis : ℕ
  pub buffered_position_millis : ℕ
  pub play_when_ready : Bool
  pub is_playing : Bool

-- The error codes are the bits of an `i32`.
pub data PlayerEdgeEvent : Type 0 where
  ended source_rejected : ℕ → PlayerEdgeEvent
  decoder_failed player_failed : ℕ → ℕ → PlayerEdgeEvent

pub data ActorLane : Type 0 where
  command operation_completion player_facts player_edge lifecycle outcome : ActorLane

pub data CancellationReason : Type 0 where
  shutdown_requested superseded : CancellationReason

pub data ActorFailure : Type 0 where
  panicked command_channel_closed runtime_unavailable : ActorFailure

pub data ActorOutcomeStatus : Type 0 where
  completed : ActorOutcomeStatus
  cancelled : CancellationReason → ActorOutcomeStatus
  failed : ActorFailure → ActorOutcomeStatus

pub record ActorOutcome : Type 0 where
  pub command_id : ℕ
  pub message_sequence : ℕ
  pub snapshot_revision : ℕ
  pub status : ActorOutcomeStatus
  pub snapshot : EngineSnapshot
  pub event : Option EngineEvent
  pub effects : List EngineEffect

pub data ActorControl : Type 0 where
  auth_state_changed : AuthState → ActorControl

pub data ActorEvent : Type 0 where
  command_outcome : ActorOutcome → ActorEvent
  operation_launched : EngineOperation → ℕ → ActorEvent
  player_facts_applied : PlayerFacts → ℕ → ActorEvent
  player_edge_applied : PlayerEdgeEvent → ℕ → ActorEvent
  control_applied : ActorControl → ℕ → ℕ → ActorEvent
  tick_processed : ℕ → ℕ → ℕ → ActorEvent
  shutdown_started : ℕ → ActorEvent

pub data SubmissionError : Type 0 where
  mailbox_full : ActorLane → ℕ → SubmissionError
  shutting_down : SubmissionError
  channel_closed : ActorLane → SubmissionError

pub data ActorStartError : Type 0 where
  invalid_capacity : ActorLane → ActorStartError
  invalid_tick_interval runtime_not_implemented : ActorStartError

pub record ActorConfig : Type 0 where
  pub command_capacity : ℕ
  pub operation_completion_capacity : ℕ
  pub player_edge_capacity : ℕ
  pub lifecycle_capacity : ℕ
  pub outcome_capacity : ℕ
  pub start_epoch_millis : ℕ
  pub tick_interval : ℕ
  pub split_remote_operations : Bool

-- `ActorConfig::default()`.
abbrev pub default_actor_config : ActorConfig
default_actor_config = record {
  command_capacity = 64;
  operation_completion_capacity = 64;
  player_edge_capacity = 32;
  lifecycle_capacity = 4;
  outcome_capacity = 128;
  start_epoch_millis = 0;
  tick_interval = 1000;
  split_remote_operations = true;
}

pub data EngineInput : Type 0 where
  command : EngineCommandType → EngineInput
  platform_event : EnginePlatformEvent → EngineInput

-- `has_response`: whoever submitted the message waits for its outcome.
pub record CommandMessage : Type 0 where
  pub command_id : ℕ
  pub input : EngineInput
  pub now_epoch_millis : ℕ
  pub has_response : Bool

-- `LifecycleMessage`, for an engine of type `E`.
pub data LifecycleMessage (E : Type 0) : Type 0 where
  control : ActorControl → LifecycleMessage E
  manual_tick : ℕ → LifecycleMessage E
  mutate_engine : (E → Option E) → LifecycleMessage E
  shutdown : LifecycleMessage E

-- What the loop of the actor takes from one of its lanes.
pub data Message (E : Type 0) : Type 0 where
  lifecycle : LifecycleMessage E → Message E
  player_edge : PlayerEdgeEvent → Message E
  completion : EngineOperationCompletion → Message E
  player_facts : PlayerFacts → Message E
  tick : ℕ → Message E
  next_command command_channel_closed : Message E
