-- ===== src/Model/Playback.antt =====
-- rust/engine/crates/app_core/src/model/playback.rs: the playback state, the vehicle's states and
-- the player controls.
use media_app.Prelude.{Bool, true, false}

pub data PlaybackState : Type 0 where
  idle playing paused buffering recovering ended error : PlaybackState

pub PlaybackState-discrete : Discrete PlaybackState
PlaybackState-discrete = hlevel

pub data RestrictionState : Type 0 where
  unknown unrestricted restricted : RestrictionState

pub data DrivingState : Type 0 where
  unknown parked idling moving : DrivingState

-- `a == b` on playback states.
abbrev pub same_state : PlaybackState → PlaybackState → Bool
same_state idle idle = true
same_state playing playing = true
same_state paused paused = true
same_state buffering buffering = true
same_state recovering recovering = true
same_state ended ended = true
same_state error error = true
same_state _ _ = false

pub record ControlState : Type 0 where
  pub is_visible : Bool
  pub is_enabled : Bool
  pub is_active : Bool

pub record PlayerControls : Type 0 where
  pub play_pause : ControlState
  pub skip_next : ControlState
  pub skip_prev : ControlState
  pub show_play_icon : Bool
