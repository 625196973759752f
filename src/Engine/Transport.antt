-- ===== src/Engine/Transport.antt =====
-- rust/engine/crates/app_core/src/engine/core/dispatch_command.rs: the arms of the transport
-- commands, the session commands and the backend's status.
use media_app.Prelude.{
  ℕ, String, text_append, decimal, Bool, true, false, ◌&&◌, Option, none, some, [], ◌∷◌, ◌++◌, ltb,
  if◌then◌else◌, is_some,
}
use media_app.Model.Auth.{new_session}
use media_app.Model.Backend.{EngineBackendStatus, available, unavailable}
use media_app.Model.Effect.{EngineEffect, F32}
use media_app.Model.Error.{EngineError, EngineResult, ok, err, engine_error, service_unavailable}
use media_app.Model.Media.{MediaItem}
use media_app.Model.Playback.{PlaybackState, same_state}
use media_app.Model.Snapshot.{
  EngineSnapshot, with_error, with_busy, with_position, with_progress_tick, with_speed,
  with_session, with_backend_status, with_backend_availability,
}
use media_app.Queue.{next_item, previous_item, current_item, has_previous, has_current}
use media_app.Engine.State.{Engine, Ports, Draft}
use media_app.Engine.Settle.{with_desired, backend_unavailable_reason}
use media_app.Engine.Source.{resolve_playback_source, update_media_state}

abbrev pub with_state : PlaybackState → EngineSnapshot → EngineSnapshot
with_state state s = record s { playback_state = state }

abbrev pub push : EngineEffect → Draft → Draft
push effect d = record d { effects = d.effects ++ effect ∷ [] }

abbrev pub with_next : EngineSnapshot → Draft → Draft
with_next s d = record d { next_snapshot = s }

-- `with_error(Some(error)).with_busy(false)` and the error state.
abbrev pub failed : EngineError → EngineSnapshot → EngineSnapshot
failed error s = with_state PlaybackState.error (with_busy false (with_error (some error) s))

-- The source of an item is resolved, and loaded or its failure recorded: the `match` that the arms
-- share. `enter` is what an arm does to the snapshot after a load, `fail` after a failure.
unfoldable pub load_media :
    Ports
    → MediaItem
    → Bool
    → (EngineSnapshot → EngineSnapshot)
    → (EngineError → EngineSnapshot → EngineSnapshot)
    → Draft
    → Draft
load_media ports media reassert enter fail d =
    let (e, answer) = resolve_playback_source ports d.engine media in
    elim answer [
      | ok resolved ↦
          let d' =
            update_media_state resolved
              (record d { engine = e; should_reassert_playback = reassert }) in
          with_next (enter d'.next_snapshot) d'
      | err error ↦ record d { engine = e; next_snapshot = fail error d.next_snapshot }
    ]

-- The arm of `SkipNext`; the Boolean is `desired_play_when_ready_before_command`.
unfoldable pub skip_next : Ports → Bool → Draft → Draft
unfolding load_media
skip_next ports desired d =
    let (q, selected) = next_item d.engine.queue in
    elim selected [
      | some media ↦
          load_media ports media desired (with_state PlaybackState.buffering) failed
            (record d { engine = record d.engine { queue = q } })
      | none ↦ record d {
        engine = record d.engine { queue = q };
        next_snapshot = d.engine.snapshot;
      }
    ]

-- The part of `SkipPrevious` that restarts the current item.
unfoldable pub restart : PlaybackState → ℕ → Draft → Draft
restart prev now d =
    let d' = push (EngineEffect.seek 0) (record d {
      engine = record d.engine { pending_seek_target_millis = some 0 };
      next_snapshot = with_progress_tick now (with_position 0 d.next_snapshot);
    }) in
    if same_state prev PlaybackState.ended
    then record d' { engine = with_desired true d'.engine; should_reassert_playback = true }
    else d'

-- The arm of `SkipPrevious`.
unfoldable pub skip_previous : Ports → Bool → PlaybackState → ℕ → Draft → Draft
unfolding load_media restart
skip_previous ports desired prev now d =
    let (q, selected) = previous_item d.engine.queue in
    let moved = record d { engine = record d.engine { queue = q } } in
    if ltb d.engine.snapshot.position_millis 10000 && has_previous d.engine.queue
    then elim selected [
      | some media ↦
          load_media ports media desired (with_state PlaybackState.buffering) failed moved
      | none ↦ moved
    ]
    else (if has_current d.engine.queue then restart prev now d else with_next d.engine.snapshot d)

-- `current_item().or_else(|| next_item())`, with the queue after it.
abbrev pub select_media : Engine → Engine × Option MediaItem
select_media e = elim (current_item e.queue) [
  | some media ↦ (e, some media)
  | none ↦ let (q, selected) = next_item e.queue in (record e { queue = q }, selected)
]

-- `matches!(state, Buffering | Recovering | Ended)`.
abbrev pub needs_play : PlaybackState → Bool
needs_play PlaybackState.buffering = true
needs_play PlaybackState.recovering = true
needs_play PlaybackState.ended = true
needs_play _ = false

-- The arm of `Play`.
unfoldable pub play : Ports → PlaybackState → ℕ → Draft → Draft
unfolding load_media
play ports prev now d =
    let d' = record d { should_reassert_playback = needs_play prev } in
    let (e, selected) = select_media d.engine in
    if is_some d.next_snapshot.session
    then (if same_state prev PlaybackState.ended
        then push (EngineEffect.seek 0) (record d' {
          engine = record d.engine { pending_seek_target_millis = some 0 };
          next_snapshot = with_progress_tick now (with_position 0 d.next_snapshot);
        })
        else (if is_some d.engine.snapshot.media_id then d' else elim selected [
          | some media ↦ load_media ports media true (λ s. s) failed (record d' { engine = e })
          | none ↦ record d' { engine = e }
        ]))
    else with_next (with_state PlaybackState.idle d.next_snapshot) d

-- The arm of `Seek`.
unfoldable pub seek : ℕ → ℕ → Draft → Draft
seek position_millis now d = push (EngineEffect.seek position_millis) (record d {
  engine = record d.engine { pending_seek_target_millis = some position_millis };
  next_snapshot = with_progress_tick now (with_position position_millis d.next_snapshot);
})

-- The arm of `SetSpeed`.
unfoldable pub set_speed : F32 → Draft → Draft
set_speed speed d =
    push (EngineEffect.set_speed speed) (with_next (with_speed speed d.next_snapshot) d)

-- The arm of `StartSession`.
unfoldable pub start_session : String → ℕ → Draft → Draft
start_session user_id now d =
    let session_id = text_append "session-" (decimal now) in
    push (EngineEffect.session_started session_id)
      (with_next (with_session (some (new_session session_id user_id now)) d.next_snapshot) d)

-- The arm of `EndSession`.
unfoldable pub end_session : Draft → Draft
end_session d =
    let s = with_session none d.next_snapshot in
    push EngineEffect.session_ended (
      with_next
        (record s { theme_preference = record s.theme_preference { session_user_id = none } }) d)

-- The answer of the system port, or the error for want of one.
unfoldable pub backend_status_of : Ports → EngineResult EngineBackendStatus
backend_status_of ports = elim ports.system_port [
  | some status ↦ status
  | none ↦ err (engine_error service_unavailable "backend is not configured" false)
]

-- The arm of `RefreshBackendStatus`.
unfoldable pub refresh_backend_status : Ports → Draft → Draft
unfolding backend_status_of
refresh_backend_status ports d = elim (backend_status_of ports) [
  | ok status ↦
      with_next
        (with_backend_availability available (with_backend_status (some status) d.next_snapshot)) d
  | err error ↦
      with_next
        (with_backend_availability (unavailable (backend_unavailable_reason error.error_type))
          (with_error (some error) d.next_snapshot))
        d
]
