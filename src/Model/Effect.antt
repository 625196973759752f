-- ===== src/Model/Effect.antt =====
-- rust/engine/crates/app_core/src/model/effect.rs and event.rs: what the engine asks of its host,
-- and what it reports. An `f32` is its bit pattern.
use media_app.Prelude.{ℕ, String, Bool, true, false, Option, List, any}

-- The bits of an `f32`.
abbrev pub F32 : Type 0
F32 = ℕ

pub data EngineEffect : Type 0 where
  play pause stop : EngineEffect
  seek : ℕ → EngineEffect
  set_speed : F32 → EngineEffect
  session_started : String → EngineEffect
  session_ended : EngineEffect
  notify_user : String → EngineEffect
  start_audio_capture stop_audio_capture duck_audio unduck_audio : EngineEffect
  prepare_playback_source : String → ℕ → ℕ → EngineEffect
  recreate_player_and_load : String → ℕ → ℕ → EngineEffect
  update_metadata : String → String → String → EngineEffect

abbrev pub is_play : EngineEffect → Bool
is_play play = true
is_play _ = false

-- `effects.contains(&EngineEffect::Play)`.
abbrev pub contains_play : List EngineEffect → Bool
contains_play effects = any is_play effects

pub data EngineEventType : Type 0 where
  command_applied platform_event_applied listener_registered analytics_reported : EngineEventType

pub record EngineEvent : Type 0 where
  pub event_type : EngineEventType
  pub message : Option String
