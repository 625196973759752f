-- ===== src/Middleware.antt =====
-- rust/engine/crates/app_core/src/middleware/pipeline.rs and standard.rs, and the calls of the pipeline
-- in engine/core/dispatch_command.rs. The middlewares that only report (logger, telemetry, focus,
-- analytics) keep nothing that a dispatch reads; what `{:?}` prints is an argument. Texts of `message`
-- are those of the event.
pub mod Busy
pub mod Throttle
use media_app.Prelude.{
  ℕ, ◌+◌, ◌%◌, ◌^◌, String, text_append, Bool, true, false, not, Option, none, some, List, [], ◌∷◌,
  str_eq, ltb, if◌then◌else◌, ◌&&◌, ◌||◌,
}
use media_app.Model.Auth.{AuthState}
use media_app.Model.Command.{EngineCommandType}
use media_app.Model.Effect.{EngineEffect, EngineEvent, command_applied}
use media_app.Model.Error.{
  EngineError, EngineErrorType, engine_error, command_rejected, network_error, skipped_media,
}
use media_app.Model.Media.{MediaItem}
use media_app.Model.Playback.{PlaybackState, same_state}
use media_app.Model.Snapshot.{EngineSnapshot, can_dispatch, with_busy, with_error, with_media}
use media_app.Model.Wire.Commands.{as_wire}
use media_app.Queue.{next_item}
use media_app.Engine.State.{Engine, Ports}
use media_app.Engine.Projections.{sync_auth_state_projection}
use media_app.Engine.Controls.{apply_queue_projection}
use media_app.Engine.Reduce.{reduce}
use media_app.History.{HistoryState, sync_history}
use media_app.History.Service.{HistoryPort}
use media_app.History.Record.{maybe_auto_record_history}
use media_app.Actor.Core.{EngineOutcome}

-- `throttling`: the smallest interval, and when a command of a wire name was let through last.
pub data Middleware : Type 0 where
  logger telemetry focus analytics recovery validation : Middleware
  throttling : ℕ → List (String × ℕ) → Middleware

-- What `{:?}` prints of a command and of a state.
pub record Printer : Type 0 where
  pub command : EngineCommandType → String
  pub state : PlaybackState → String

abbrev bool_text : Bool → String
bool_text true = "true"
bool_text false = "false"

abbrev rejection : String → EngineError
rejection message = engine_error command_rejected message false

-- `last_map.get(&key)` with `unwrap_or(0)`, and `insert`.
unfoldable pub last_time : String → List (String × ℕ) → ℕ
last_time key [] = 0
last_time key ((k, time) ∷ rest) =
    let found = last_time key rest in if str_eq k key then time else found

-- The sum wraps, as in a release build.
unfoldable pub should_throttle : ℕ → String → ℕ → List (String × ℕ) → Bool
unfolding last_time
should_throttle min_interval key now times = ltb now ((last_time key times + min_interval) % 2 ^ 64)

-- The error of the validation, for the text of the engine's state.
abbrev pub busy_error : Printer → Engine → EngineCommandType → EngineError
busy_error print e c = rejection (
    text_append "[Validation] Rejecting command " (
      text_append (print.command c) (
        text_append " because the engine is currently busy (state: " (
          text_append (print.state e.snapshot.playback_state)
            (text_append ", is_busy: " (text_append (bool_text e.snapshot.is_busy) ")"))))))

-- `Err` of `before_dispatch` as `some`, and the middleware afterwards.
unfoldable pub check :
    Printer → Middleware → Engine → EngineCommandType → Option EngineError × Middleware
unfolding can_dispatch should_throttle
check print validation e c =
    if can_dispatch e.snapshot
    then (none, validation)
    else (some (busy_error print e c), validation)
check print (throttling min_interval times) e c =
    let now = e.snapshot.updated_at_epoch_millis in
    if should_throttle min_interval (as_wire c) now times
    then (
      some (
          rejection (
            text_append "[Throttling] Throttling command "
              (text_append (print.command c) " (too rapid)"))),
      throttling min_interval times,
    )
    else (none, throttling min_interval ((as_wire c, now) ∷ times))
check print m e c = (none, m)

-- `MiddlewarePipeline::before_dispatch`: in order, up to the first error.
unfoldable pub before_dispatch :
    Printer → List Middleware → Engine → EngineCommandType → Option EngineError × List Middleware
unfolding check
before_dispatch print [] e c = (none, [])
before_dispatch print (m ∷ ms) e c =
    let checked = check print m e c in
    let rest = before_dispatch print ms e c in
    elim checked.0 [
      | none ↦ (rest.0, checked.1 ∷ rest.1)
      | some error ↦ (some error, checked.1 ∷ ms)
    ]

abbrev pub applied : String → EngineEvent
applied message = record { event_type = command_applied; message = some message }

-- A network error that is not fatal.
unfoldable pub is_recoverable : Option EngineError → Bool
is_recoverable none = false
is_recoverable (some error) = elim error.error_type [
  | EngineErrorType.network_error ↦ not error.is_fatal
  | _ ↦ false
]

-- The snapshot with the next item, where there is one.
abbrev with_skipped : Option MediaItem → EngineSnapshot → EngineSnapshot
with_skipped none s = s
with_skipped (some media) s = with_media media s

-- `RecoveryMiddleware::after_dispatch`: the next item is shown in the outcome.
unfoldable pub recover : Engine → EngineOutcome → Engine × EngineOutcome
unfolding is_recoverable next_item with_media
recover e outcome =
    if is_recoverable outcome.snapshot.last_error
    then (
      record e { queue = (next_item e.queue).0 },
      record {
        snapshot = record (with_skipped (next_item e.queue).1 outcome.snapshot) {
          last_error = some (skipped_media "Skipped track due to network error");
        };
        event = applied "recovered_from_network_error: skipped_to_next_track";
        effects = outcome.effects;
      },
    )
    else (e, outcome)

-- `MiddlewarePipeline::after_dispatch`.
unfoldable pub after_dispatch : List Middleware → Engine → EngineOutcome → Engine × EngineOutcome
unfolding recover
after_dispatch [] e outcome = (e, outcome)
after_dispatch (recovery ∷ ms) e outcome =
    let recovered = recover e outcome in after_dispatch ms recovered.0 recovered.1
after_dispatch (m ∷ ms) e outcome = after_dispatch ms e outcome

-- The early return of `dispatch_command` for a command that the pipeline rejects.
unfoldable pub rejected :
    AuthState → EngineError → EngineCommandType → Engine → Engine × EngineOutcome
unfolding sync_auth_state_projection
rejected auth error c e =
    let e' =
      sync_auth_state_projection auth
        (record e { snapshot = with_busy false (with_error (some error) e.snapshot) }) in
    (
      e',
      record {
        snapshot = e'.snapshot;
        event = applied (text_append (as_wire c) ":rejected_by_middleware");
        effects = [];
      },
    )

-- The history's view of an engine, and back.
abbrev pub seen_by : Engine → HistoryState → HistoryState
seen_by e h = record h {
  snapshot = e.snapshot;
  current_playback_instance_id = e.current_playback_instance_id;
}

-- The history record after a command, where sound was or is playing.
unfoldable pub record_while_playing :
    Option HistoryPort → PlaybackState → ℕ → Engine → HistoryState → Engine × HistoryState
unfolding maybe_auto_record_history
record_while_playing port prev now e h =
    let recorded = maybe_auto_record_history port now (seen_by e h) in
    if same_state prev PlaybackState.playing
      || same_state e.snapshot.playback_state PlaybackState.playing
    then (record e { snapshot = recorded.snapshot }, recorded)
    else (e, h)

-- What `dispatch_command` does once the pipeline has let a command through: the projection of the
-- authentication state, the command itself, the history record and the outcome.
unfoldable pub dispatch_allowed :
    List Middleware
    → Ports
    → Option HistoryPort
    → String
    → EngineCommandType
    → ℕ
    → Engine
    → HistoryState
    → Option ((Engine × HistoryState) × EngineOutcome)
unfolding sync_auth_state_projection sync_history reduce record_while_playing apply_queue_projection
    after_dispatch
dispatch_allowed ms ports port message c now e h =
    let synced = sync_auth_state_projection ports.current_auth e in
    let history = sync_history ports.current_auth (seen_by e h) in
    elim (reduce ports c now synced) [
      | none ↦ none
      | some reduced ↦
          let recorded =
            record_while_playing port synced.snapshot.playback_state now reduced.0 history in
          let shown = record recorded.0 {
            snapshot = apply_queue_projection recorded.0.queue recorded.0.snapshot;
          } in
          let after =
            after_dispatch ms shown (record {
              snapshot = shown.snapshot;
              event = applied message;
              effects = reduced.1;
            }) in
          some ((after.0, recorded.1), after.1)
    ]

-- `dispatch_command` with its pipeline; the message of the event is an argument, and what the player
-- makes of the effects is its own.
unfoldable pub dispatch_command :
    Printer
    → List Middleware
    → Ports
    → Option HistoryPort
    → String
    → EngineCommandType
    → ℕ
    → Engine
    → HistoryState
    → Option ((Engine × HistoryState) × EngineOutcome) × List Middleware
unfolding before_dispatch rejected sync_history dispatch_allowed
dispatch_command print ms ports port message c now e h =
    let checked = before_dispatch print ms e c in
    (
      elim checked.0 [
        | some error ↦
            let early = rejected ports.current_auth error c e in
            some ((early.0, sync_history ports.current_auth (seen_by early.0 h)), early.1)
        | none ↦ dispatch_allowed checked.1 ports port message c now e h
      ],
      checked.1,
    )
