-- ===== src/Engine/PlatformEvents.antt =====
-- rust/engine/crates/app_core/src/engine/core/dispatch_platform_event.rs: the rest of
-- `dispatch_platform_event_impl`, and the whole.
pub mod Guards
pub mod Failures
pub mod Recovery
pub mod Intent
use media_app.Prelude.{
  ℕ, max, String, Bool, true, false, not, ◌&&◌, Option, none, some, List, [], ◌∷◌, if◌then◌else◌,
}
use media_app.Model.Effect.{EngineEffect}
use media_app.Model.Error.{EngineError, player_failure}
use media_app.Model.PlatformEvent.{
  EnginePlatformEventType, EnginePlatformEvent, PlaybackObservationPayload,
}
use media_app.Model.Playback.{PlaybackState, same_state, DrivingState, RestrictionState}
use media_app.Model.Snapshot.{
  EngineSnapshot, with_playback_state, with_error, with_position, with_duration, with_progress_tick,
}
use media_app.Model.Wire.Events.{driving_from_wire, restriction_from_wire}
use media_app.Model.Wire.Commands.{from_wire}
use media_app.StateMachine.{next_state_from_platform_event}
use media_app.Engine.State.{Engine, Ports}
use media_app.Engine.Controls.{refresh_controls}
use media_app.Engine.Source.{or_option}
use media_app.Engine.Reduce.{reduce}
use media_app.Engine.Observe.{
  observed, is_player_event, is_stale, positive, with_reported_duration, checkpoint, Step, done,
  go_on, has_kind, source_rejected, decoder_failed,
}

-- `snap_finished_progress`.
unfoldable pub snap_finished_progress : Ports → Option String → EngineSnapshot → EngineSnapshot
snap_finished_progress ports payload s =
    let reported = elim payload as (λ p. Option ℕ) [
      | none ↦ none
      | some text ↦ positive (ports.parse_duration_ms text)
    ] in
    elim (or_option reported s.duration_millis) [
      | none ↦ s
      | some duration ↦
          with_progress_tick (max s.updated_at_epoch_millis s.last_progress_tick_epoch_millis)
            (with_position duration (with_duration (some duration) s))
    ]

-- The handling of `PlaybackCompleted`, but for the history record.
unfoldable pub completed : Ports → Option String → ℕ → Engine → Engine × List EngineEffect
unfolding snap_finished_progress
completed ports payload now e = (
  record e {
    snapshot =
        snap_finished_progress ports payload
          (with_error none (with_playback_state PlaybackState.ended now e.snapshot));
  },
  EngineEffect.pause ∷ [],
)

abbrev is_media_loaded : EnginePlatformEventType → Bool
is_media_loaded EnginePlatformEventType.media_loaded = true
is_media_loaded _ = false

-- The state after an event on the general path.
unfoldable pub next_state_after : PlaybackState → EnginePlatformEventType → Bool → PlaybackState
next_state_after prev event_type desired =
    if same_state prev PlaybackState.recovering && (is_media_loaded event_type && not desired)
    then PlaybackState.paused
    else next_state_from_platform_event prev event_type

abbrev or_unknown_driving : Option String → DrivingState
or_unknown_driving none = DrivingState.unknown
or_unknown_driving (some value) = driving_from_wire value

abbrev or_unknown_restriction : Option String → RestrictionState
or_unknown_restriction none = RestrictionState.unknown
or_unknown_restriction (some value) = restriction_from_wire value

-- The vehicle's state that an event reports.
unfoldable pub with_vehicle : EnginePlatformEvent → EngineSnapshot → EngineSnapshot
with_vehicle event s = elim event.event_type [
  | EnginePlatformEventType.vehicle_driving_state_changed ↦ record s {
    driving_state = or_unknown_driving event.payload;
  }
  | EnginePlatformEventType.ux_restrictions_changed ↦ record s {
    restriction_state = or_unknown_restriction event.payload;
  }
  | _ ↦ s
]

-- The error that an event reports.
unfoldable pub reported_error : Ports → Option String → EngineError
reported_error ports none = player_failure "Unknown platform error"
reported_error ports (some payload) = elim (ports.parse_error payload) [
  | some error ↦ error
  | none ↦ player_failure payload
]

-- The effects of entering a state on the general path.
abbrev pub event_effects : PlaybackState → PlaybackState → List EngineEffect
event_effects prev PlaybackState.paused = EngineEffect.pause ∷ []
event_effects PlaybackState.buffering PlaybackState.playing = []
event_effects prev PlaybackState.playing = EngineEffect.play ∷ []
event_effects prev PlaybackState.idle = EngineEffect.stop ∷ []
event_effects prev _ = []

-- The general path, up to the history record.
unfoldable pub general :
    Ports
    → EnginePlatformEvent
    → Option PlaybackObservationPayload
    → ℕ
    → Engine
    → Engine × List EngineEffect
unfolding next_state_after with_vehicle reported_error
general ports event o now e =
    let prev = e.snapshot.playback_state in
    let next = next_state_after prev event.event_type e.recovery.desired_play_when_ready in
    let entered = with_vehicle event (with_playback_state next now e.snapshot) in
    let ticked =
      if not (same_state prev PlaybackState.playing) && same_state next PlaybackState.playing
      then with_progress_tick now entered
      else entered in
    let timed =
      if is_media_loaded event.event_type
      then elim o as (λ p. EngineSnapshot) [
        | none ↦ ticked
        | some observation ↦ with_reported_duration observation.duration_ms ticked
      ]
      else ticked in
    let s =
      if same_state next PlaybackState.error
      then with_error (some (reported_error ports event.payload)) timed
      else with_error none timed in
    (
      refresh_controls (record e { snapshot = s }),
      if same_state prev next then [] else event_effects prev next,
    )

-- What follows a `Step`.
abbrev and_then :
    Step → (Engine → Option (Engine × List EngineEffect)) → Option (Engine × List EngineEffect)
and_then (done e effects) f = some (e, effects)
and_then (go_on e) f = f e

-- The part of `dispatch_platform_event_impl` after the check for stale observations, by the type of
-- the event. A media button is dispatched as the command that its payload names.
unfoldable pub handle :
    Ports
    → EnginePlatformEvent
    → Option PlaybackObservationPayload
    → ℕ
    → Engine
    → Option (Engine × List EngineEffect)
unfolding general completed
handle ports event o now e = elim event.event_type [
  | EnginePlatformEventType.media_loaded ↦
      some (general ports event o now (record e { pending_seek_target_millis = none }))
  | EnginePlatformEventType.playback_position_checkpoint ↦ some (checkpoint o now e, [])
  | EnginePlatformEventType.media_error ↦ elim o [
    | none ↦ some (general ports event none now e)
    | some observation ↦
        if has_kind "source_rejected" (some observation)
        then and_then (source_rejected ports observation.playback_instance_id now e)
            (λ e'. some (general ports event (some observation) now e'))
        else (if has_kind "decoder_failed" (some observation)
            then some (decoder_failed observation now e)
            else some (general ports event (some observation) now e))
  ]
  | EnginePlatformEventType.media_button_pressed ↦ elim event.payload [
    | none ↦ some (general ports event o now e)
    | some payload ↦ reduce ports (from_wire payload) now e
  ]
  | EnginePlatformEventType.playback_completed ↦ some (completed ports event.payload now e)
  | _ ↦ some (general ports event o now e)
]

-- `dispatch_platform_event_impl`; `none` only for a media button whose command is not modelled.
unfoldable pub observe :
    Ports → EnginePlatformEvent → ℕ → Engine → Option (Engine × List EngineEffect)
unfolding handle
observe ports event now e =
    let o = observed ports event in
    if is_player_event event.event_type && is_stale o e.current_playback_instance_id
    then some (e, [])
    else handle ports event o now e
