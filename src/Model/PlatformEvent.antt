-- ===== src/Model/PlatformEvent.antt =====
-- rust/engine/crates/app_core/src/model/platform_event.rs: what the platform tells the engine.
use media_app.Prelude.{ℕ, String, Bool, Option}

pub data EnginePlatformEventType : Type 0 where
  app_foregrounded app_backgrounded suspend_to_ram resume_from_ram : EnginePlatformEventType
  ux_restrictions_changed vehicle_driving_state_changed : EnginePlatformEventType
  media_button_pressed media_loaded media_error playback_completed : EnginePlatformEventType
  playback_position_checkpoint : EnginePlatformEventType
  unknown : String → EnginePlatformEventType

pub record EnginePlatformEvent : Type 0 where
  pub event_type : EnginePlatformEventType
  pub payload : Option String

-- The observation that the payload of a player event carries. `error_code` is an `i32`'s bits.
pub record PlaybackObservationPayload : Type 0 where
  pub version : ℕ
  pub playback_instance_id : ℕ
  pub kind : Option String
  pub position_ms : Option ℕ
  pub decoder : Option String
  pub error_code : Option ℕ
  pub phase : Option String
  pub play_when_ready : Option Bool
  pub duration_ms : Option ℕ
