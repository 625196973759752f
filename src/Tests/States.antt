-- ===== src/Tests/States.antt =====
-- Tests of the state machine.
use media_app.Prelude.{◌≡◌, ◌⊎◌, refl, [], ◌∷◌}
use media_app.Model.Playback.{PlaybackState}
use media_app.Model.Command.{EngineCommandType}
use media_app.Model.PlatformEvent.{EnginePlatformEventType}
use media_app.StateMachine.Traces.{Input, next_state, run, ◌⟶◌, next_state-⟶}

play_from_idle :
    run PlaybackState.idle (
      Input.command EngineCommandType.play
      ∷ Input.event EnginePlatformEventType.media_loaded
      ∷ Input.command EngineCommandType.pause
      ∷ [])
    ≡ PlaybackState.paused
unfolding run next_state
play_from_idle = refl

next_state-⟶_example :
    (next_state PlaybackState.idle (Input.command EngineCommandType.play) ≡ PlaybackState.idle)
    ⊎ (PlaybackState.idle ⟶ next_state PlaybackState.idle (Input.command EngineCommandType.play))
next_state-⟶_example = next_state-⟶ PlaybackState.idle (Input.command EngineCommandType.play)
