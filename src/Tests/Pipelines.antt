-- ===== src/Tests/Pipelines.antt =====
-- Tests of the middleware, around the engine that plays "dawn".
use media_app.Prelude.{arith, ℕ, ◌+◌, ◌≤◌, ◌≡◌, ◌⊎◌, refl, true, false, some, [], ◌∷◌}
use media_app.Model.Auth.{AuthState}
use media_app.Model.Command.{EngineCommandType}
use media_app.Model.Error.{EngineError, engine_error, network_error, skipped_media}
use media_app.Model.Snapshot.{with_busy, with_error}
use media_app.Model.Wire.Commands.{as_wire}
use media_app.Queue.{next_item}
use media_app.Engine.State.{Engine}
use media_app.Actor.Core.{EngineOutcome}
use media_app.Middleware.{
  Printer, after_dispatch, logger, recovery, applied, check, is_recoverable, last_time, rejected,
  should_throttle, throttling,
}
use media_app.Middleware.Busy.{after_dispatch-skips_once}
use media_app.Middleware.Throttle.{throttle_spaces, throttled_again}
use media_app.Tests.Fixtures.{playing_engine, playing_snapshot}

abbrev plain_printer : Printer
plain_printer = record { command = λ c. "Command"; state = λ s. "State" }

abbrev busy_engine : Engine
busy_engine = record playing_engine { snapshot = with_busy true playing_snapshot }

abbrev offline_outcome : EngineOutcome
offline_outcome = record {
  snapshot = with_error (some (engine_error network_error "offline" false)) playing_snapshot;
  event = applied "play";
  effects = [];
}

after_dispatch-skips_once_example :
    (after_dispatch (recovery ∷ logger ∷ recovery ∷ []) playing_engine offline_outcome
      ≡ (playing_engine, offline_outcome))
    ⊎ ((is_recoverable offline_outcome.snapshot.last_error ≡ true)
        × ((after_dispatch (recovery ∷ logger ∷ recovery ∷ []) playing_engine offline_outcome).0
            ≡ record playing_engine { queue = (next_item playing_engine.queue).0 })
        × ((after_dispatch
              (recovery ∷ logger ∷ recovery ∷ [])
              playing_engine
              offline_outcome).1.effects
            ≡ [])
        × ((after_dispatch
              (recovery ∷ logger ∷ recovery ∷ [])
              playing_engine
              offline_outcome).1.snapshot.last_error
            ≡ some (skipped_media "Skipped track due to network error")))
after_dispatch-skips_once_example =
    after_dispatch-skips_once (recovery ∷ logger ∷ recovery ∷ []) playing_engine offline_outcome

abbrev engine_at : ℕ → Engine
engine_at time = record playing_engine {
  snapshot = record playing_snapshot { updated_at_epoch_millis = time };
}

throttle_spaces_example : 1000 + 300 ≤ 1400
unfolding check should_throttle last_time as_wire
throttle_spaces_example =
    throttle_spaces plain_printer 300 [] (engine_at 1000) (engine_at 1400) EngineCommandType.play
      (omega arith) refl refl

abbrev too_rapid : EngineError
too_rapid =
    engine_error media_app.Model.Error.command_rejected
      "[Throttling] Throttling command Command (too rapid)" false

throttled_again_example :
    (check plain_printer
      (check plain_printer
        (throttling 300 (("play", 900) ∷ []))
        (engine_at 1000)
        EngineCommandType.play).1
      (rejected AuthState.anonymous too_rapid EngineCommandType.play (engine_at 1000)).0
      EngineCommandType.play).0
    ≡ some too_rapid
unfolding check should_throttle last_time as_wire
throttled_again_example =
    throttled_again plain_printer 300 (("play", 900) ∷ []) (engine_at 1000) AuthState.anonymous
      EngineCommandType.play too_rapid refl

-- "ada" saw feeds, and has logged out.
abbrev left_engine : Engine
left_engine = record playing_engine {
  feed_projection_identity = some (record { account_id = "ada"; session_id = "s1" });
  playlist_projection_identity = some (record { account_id = "ada"; session_id = "s1" });
}
