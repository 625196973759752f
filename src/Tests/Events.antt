-- ===== src/Tests/Events.antt =====
-- Tests of the engine's platform events.
use media_app.Prelude.{true, ◌≤◌, ◌≡◌, ◌⊎◌, refl, none, some, [], ◌∷◌, abs_diff}
use media_app.Model.Effect.{EngineEffect, recreate_player_and_load, notify_user}
use media_app.Model.PlatformEvent.{EnginePlatformEventType}
use media_app.StateMachine.{next_state_from_platform_event}
use media_app.Engine.State.{Engine}
use media_app.Engine.Controls.{refresh_controls}
use media_app.Engine.Observe.{observed, is_stale, checkpoint, decoder_failed, decoder_message}
use media_app.Engine.PlatformEvents.{observe, handle, general}
use media_app.Engine.PlatformEvents.Intent.{observe-plays}
use media_app.Engine.Reduce.Effects.{plays}
use media_app.Model.Playback.{PlaybackState}
use media_app.Engine.PlatformEvents.Guards.{checkpoint_seek}
use media_app.Engine.PlatformEvents.Recovery.{Failing, stop, fail, replaced_at_most_once}
use media_app.Tests.Fixtures.{playing_engine, seeking_engine, observation, ports}

-- The engine after the decoder of instance 7 failed, and after that of instance 8 failed too.
abbrev once_failed : Engine
unfolding decoder_failed refresh_controls
once_failed = (decoder_failed (observation 7 (some "decoder_failed") none) 2000 playing_engine).0

abbrev twice_failed : Engine
unfolding decoder_failed refresh_controls
twice_failed = (decoder_failed (observation 8 (some "decoder_failed") none) 3000 once_failed).0

abbrev two_failures : Failing ports playing_engine 1 twice_failed
unfolding observe observed is_stale handle decoder_failed once_failed
two_failures =
    fail {effects = recreate_player_and_load "dawn" 8 40000 ∷ EngineEffect.play ∷ []} (some "first")
      2000 refl
      (fail {e = once_failed} {effects = notify_user decoder_message ∷ []} (some "second") 3000 refl
        stop)

replaced_at_most_once_example : 1 ≤ 1
replaced_at_most_once_example = replaced_at_most_once two_failures

-- The engine that was suspended while it played.
abbrev suspended : Engine
unfolding general refresh_controls
suspended =
    (general ports (record { event_type = EnginePlatformEventType.suspend_to_ram; payload = none })
      none 2000 playing_engine).0

checkpoint_seek_example :
    (checkpoint (some (observation 7 none (some 90500))) 2000 seeking_engine ≡ seeking_engine)
    ⊎ ((abs_diff
            (checkpoint
              (some (observation 7 none (some 90500)))
              2000
              seeking_engine).snapshot.position_millis
            90000
          ≤ 1500)
        × ((checkpoint
              (some (observation 7 none (some 90500)))
              2000
              seeking_engine).pending_seek_target_millis
            ≡ none))
checkpoint_seek_example =
    checkpoint_seek (some (observation 7 none (some 90500))) 2000 90000 seeking_engine refl

observe-plays_example :
    (plays (EngineEffect.pause ∷ []) ≡ 0)
    ⊎ (suspended.recovery.desired_play_when_ready ≡ true)
    ⊎ (playing_engine.snapshot.playback_state ≡ PlaybackState.error)
unfolding observe observed handle general refresh_controls suspended next_state_from_platform_event
observe-plays_example =
    observe-plays ports
      (record { event_type = EnginePlatformEventType.suspend_to_ram; payload = none }) 2000
      playing_engine suspended (EngineEffect.pause ∷ []) tt refl
