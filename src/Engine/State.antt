-- ===== src/Engine/State.antt =====
-- rust/engine/crates/app_core/src/engine/core.rs: the state of the engine, and what it asks of its
-- ports. Left out of `Engine` are the fields that the operations of this folder do not use:
-- the catalog, the operations on pages, history, library and account projections, voice, the player and
-- the middleware.
use media_app.Prelude.{ℕ, String, Bool, false, Option, none, List}
use media_app.Model.Auth.{AuthState}
use media_app.Model.Backend.{EngineBackendStatus}
use media_app.Model.Config.{EngineConfig}
use media_app.Model.Effect.{EngineEffect}
use media_app.Model.Error.{EngineResult}
use media_app.Model.Media.{EnginePlaybackSource, MediaItem}
use media_app.Model.PlatformEvent.{PlaybackObservationPayload}
use media_app.Model.Error.{EngineError}
use media_app.Model.Snapshot.{EngineSnapshot}
use media_app.Library.{AuthIdentity}
use media_app.Queue.{QueueManager}
use media_app.Retry.{Answer, PlaybackSource}

pub record PlaybackRecoveryState : Type 0 where
  pub source_refresh_attempted_for : Option ℕ
  pub decoder_attempted_for : Option ℕ
  pub desired_play_when_ready : Bool

-- `PlaybackRecoveryState::default()`.
abbrev pub default_recovery : PlaybackRecoveryState
default_recovery = record {
  source_refresh_attempted_for = none;
  decoder_attempted_for = none;
  desired_play_when_ready = false;
}

-- `prefetched_playback` is the content of `prefetched_operation` where that is a `Playback`.
pub record Engine : Type 0 where
  pub snapshot : EngineSnapshot
  pub config : EngineConfig
  pub queue : QueueManager
  pub prefetched_playback : Option (EngineResult EnginePlaybackSource)
  pub next_playback_instance_id : ℕ
  pub current_playback_instance_id : Option ℕ
  pub pending_seek_target_millis : Option ℕ
  pub recovery : PlaybackRecoveryState
  pub feed_projection_identity : Option AuthIdentity
  pub profile_projection_identity : Option AuthIdentity
  pub playlist_projection_identity : Option AuthIdentity

-- What lies behind the engine's ports during one dispatch: the playback port and the audio source
-- client (whose error is its text), if they are configured, the repository, and the backend's
-- status port; the state of the authentication provider, anonymous where there is none; and `serde_json`, which reads a payload: as an observation, as an error, or as an object
-- with a whole number `duration_ms`.
pub record Ports : Type 0 where
  pub playback_port : Option (String → EngineResult EnginePlaybackSource)
  pub audio_source_client : Option (String → Answer String PlaybackSource)
  pub get_by_id : String → Option MediaItem
  pub search : String → Answer String (List MediaItem)
  pub current_auth : AuthState
  pub system_port : Option (EngineResult EngineBackendStatus)
  pub parse_observation : String → Option PlaybackObservationPayload
  pub parse_error : String → Option EngineError
  pub parse_duration_ms : String → Option ℕ

-- The local variables of `dispatch_command` that its arms change, beside `self`.
pub record Draft : Type 0 where
  pub engine : Engine
  pub next_snapshot : EngineSnapshot
  pub effects : List EngineEffect
  pub should_reassert_playback : Bool
