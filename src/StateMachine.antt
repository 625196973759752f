-- ===== src/StateMachine.antt =====
-- rust/engine/crates/app_core/src/engine/state_machine.rs: `StateMachine`, the playback state after
-- a command and after a platform event.
pub mod Traces
use media_app.Model.Playback.{
  PlaybackState, idle, playing, paused, buffering, recovering, ended, error,
}
use media_app.Model.Command.{EngineCommandType}
use media_app.Model.PlatformEvent.{
  EnginePlatformEventType, media_loaded, media_error, suspend_to_ram,
}

unfoldable pub next_state_from_command : PlaybackState → EngineCommandType → PlaybackState
next_state_from_command idle EngineCommandType.play = buffering
next_state_from_command idle EngineCommandType.bootstrap = idle
next_state_from_command buffering EngineCommandType.pause = paused
next_state_from_command buffering _ = buffering
next_state_from_command recovering EngineCommandType.pause = paused
next_state_from_command recovering _ = recovering
next_state_from_command playing EngineCommandType.pause = paused
next_state_from_command paused EngineCommandType.play = playing
next_state_from_command error EngineCommandType.play = buffering
next_state_from_command ended EngineCommandType.play = buffering
next_state_from_command ended EngineCommandType.skip_previous = buffering
next_state_from_command current _ = current

unfoldable pub next_state_from_platform_event :
    PlaybackState → EnginePlatformEventType → PlaybackState
next_state_from_platform_event buffering media_loaded = playing
next_state_from_platform_event buffering media_error = error
next_state_from_platform_event recovering media_loaded = playing
next_state_from_platform_event recovering media_error = error
next_state_from_platform_event playing media_error = error
next_state_from_platform_event error media_loaded = playing
next_state_from_platform_event _ suspend_to_ram = paused
next_state_from_platform_event current _ = current
