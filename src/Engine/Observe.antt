-- ===== src/Engine/Observe.antt =====
-- rust/engine/crates/app_core/src/engine/core/dispatch_platform_event.rs: what the engine does with
-- what the platform observes. The session of the authentication provider, the history records and
-- the middleware after an event are not part of it.
use media_app.Prelude.{
  ℕ, String, Bool, true, false, not, ◌||◌, Option, none, some, List, [], ◌∷◌, ◌++◌, ◌==◌, opt_eq,
  opt_str_eq, ltb, abs_diff, saturating_add, if◌then◌else◌, is_some,
}
use media_app.Model.Effect.{EngineEffect, recreate_player_and_load, notify_user}
use media_app.Model.Error.{EngineError, ok, err, player_failure}
use media_app.Model.PlatformEvent.{
  EnginePlatformEventType, EnginePlatformEvent, PlaybackObservationPayload,
}
use media_app.Model.Playback.{PlaybackState, same_state}
use media_app.Model.Snapshot.{
  EngineSnapshot, with_playback_state, with_error, with_busy, with_position, with_duration,
  with_progress_tick, clamped,
}
use media_app.Queue.{current_item}
use media_app.Engine.State.{Engine, Ports}
use media_app.Engine.Controls.{refresh_controls}
use media_app.Engine.Source.{resolve_playback_source, update_media_state, ResolvedPlaybackMedia}
use media_app.Engine.Settle.{with_desired}

-- `serde_json::from_str` on the payload, if there is one.
unfoldable pub observed : Ports → EnginePlatformEvent → Option PlaybackObservationPayload
observed ports event = elim event.payload [ none ↦ none | some text ↦ ports.parse_observation text ]

-- The events that carry an observation of a playback instance.
abbrev pub is_player_event : EnginePlatformEventType → Bool
is_player_event EnginePlatformEventType.media_loaded = true
is_player_event EnginePlatformEventType.media_error = true
is_player_event EnginePlatformEventType.playback_completed = true
is_player_event EnginePlatformEventType.playback_position_checkpoint = true
is_player_event _ = false

-- The observation is of another version or of another instance than the current one.
unfoldable pub is_stale : Option PlaybackObservationPayload → Option ℕ → Bool
is_stale none current = false
is_stale (some o) current =
    not (o.version == 1) || not (opt_eq (some o.playback_instance_id) current)

-- `filter(|duration| *duration > 0)`.
abbrev pub positive : Option ℕ → Option ℕ
positive none = none
positive (some n) = if ltb 0 n then some n else none

-- The snapshot with a reported duration, if it is positive.
abbrev pub with_reported_duration : Option ℕ → EngineSnapshot → EngineSnapshot
with_reported_duration reported s = elim (positive reported) [
  | none ↦ s
  | some duration ↦ with_duration (some duration) s
]

-- The position is farther than the tolerance from the target of a seek that has not settled.
abbrev pub is_unsettled : Option ℕ → ℕ → Bool
is_unsettled none position = false
is_unsettled (some target) position = ltb 1500 (abs_diff position target)

-- The handling of `PlaybackPositionCheckpoint`, up to the history record.
unfoldable pub checkpoint : Option PlaybackObservationPayload → ℕ → Engine → Engine
checkpoint none now e = e
checkpoint (some o) now e =
    if same_state e.snapshot.playback_state PlaybackState.ended then e else elim o.position_ms [
      | none ↦ e
      | some position ↦
          let s = with_reported_duration o.duration_ms e.snapshot in
          let safe = clamped s.duration_millis position in
          if is_unsettled e.pending_seek_target_millis safe then e else record e {
            pending_seek_target_millis = none;
            snapshot = with_progress_tick now (with_position safe s);
          }
    ]

-- An event is dealt with, or the engine goes on with it.
pub data Step : Type 0 where
  done : Engine → List EngineEffect → Step
  go_on : Engine → Step

-- `is_some_and(|value| value.kind == Some(kind))`.
abbrev pub has_kind : String → Option PlaybackObservationPayload → Bool
has_kind kind none = false
has_kind kind (some o) = opt_str_eq o.kind (some kind)

-- The snapshot in the error state with an error.
abbrev pub erroneous : EngineError → ℕ → EngineSnapshot → EngineSnapshot
erroneous error now s = with_error (some error) (with_playback_state PlaybackState.error now s)

-- The engine and the effects after the source was resolved again.
unfoldable pub refreshed : ResolvedPlaybackMedia → ℕ → Engine → Step
refreshed resolved now e =
    let desired = e.recovery.desired_play_when_ready in
    let s =
      with_playback_state (if desired then PlaybackState.buffering else PlaybackState.paused) now
        e.snapshot in
    let d =
      update_media_state resolved (record {
        engine = e;
        next_snapshot = s;
        effects = [];
        should_reassert_playback = false;
      }) in
    let current = d.engine.current_playback_instance_id in
    done
      (refresh_controls (record d.engine {
        snapshot = d.next_snapshot;
        recovery = record {
          source_refresh_attempted_for = current;
          decoder_attempted_for =
              if is_some e.recovery.decoder_attempted_for then current else none;
          desired_play_when_ready = desired;
        };
      }))
      (if desired then d.effects ++ EngineEffect.play ∷ [] else d.effects)

-- The handling of a `MediaError` of the kind "source_rejected".
unfoldable pub source_rejected : Ports → ℕ → ℕ → Engine → Step
unfolding refreshed
source_rejected ports instance_id now e =
    if opt_eq e.recovery.source_refresh_attempted_for (some instance_id)
    then go_on (record e {
      snapshot =
          erroneous (player_failure "resolved source was rejected after refresh") now e.snapshot;
    })
    else elim (current_item e.queue) [
      | none ↦ go_on e
      | some media ↦
          let attempted = record e {
            recovery = record e.recovery { source_refresh_attempted_for = some instance_id };
          } in
          let (e', answer) = resolve_playback_source ports attempted media in
          elim answer [
            | ok resolved ↦ refreshed resolved now e'
            | err error ↦ go_on (record e' { snapshot = erroneous error now e'.snapshot })
          ]
    ]

abbrev pub decoder_message : String
decoder_message = "Playback could not continue because the device audio decoder failed."

-- The replacement of the player after its decoder failed.
unfoldable pub replaced : String → ℕ → Engine → Engine × List EngineEffect
replaced media_id now e =
    let id = saturating_add e.next_playback_instance_id 1 in
    let s =
      with_busy true
        (with_error none (with_playback_state PlaybackState.recovering now e.snapshot)) in
    let recreate = recreate_player_and_load media_id id e.snapshot.position_millis in
    (
      refresh_controls (record e {
        next_playback_instance_id = id;
        current_playback_instance_id = some id;
        pending_seek_target_millis = some e.snapshot.position_millis;
        recovery = record e.recovery { decoder_attempted_for = some id };
        snapshot = s;
      }),
      if e.recovery.desired_play_when_ready
          then recreate ∷ EngineEffect.play ∷ []
          else recreate ∷ [],
    )

-- The end of playback after a decoder failed.
unfoldable pub given_up : ℕ → Engine → Engine × List EngineEffect
given_up now e = (
  refresh_controls (record e {
    snapshot =
        with_error (some (player_failure decoder_message))
          (with_busy false (with_playback_state PlaybackState.error now e.snapshot));
  }),
  notify_user decoder_message ∷ [],
)

-- `play_when_ready.unwrap_or(desired)`.
abbrev pub or_desired : Option Bool → Bool → Bool
or_desired none desired = desired
or_desired (some b) desired = b

-- The handling of a `MediaError` of the kind "decoder_failed".
unfoldable pub decoder_failed : PlaybackObservationPayload → ℕ → Engine → Engine × List EngineEffect
unfolding replaced given_up
decoder_failed o now e =
    let e' = with_desired (or_desired o.play_when_ready e.recovery.desired_play_when_ready) e in
    if opt_eq e.recovery.decoder_attempted_for (some o.playback_instance_id)
    then given_up now e'
    else elim e.snapshot.media_id [
      | none ↦ given_up now e'
      | some media_id ↦ replaced media_id now e'
    ]
