-- ===== src/Engine/Settle.antt =====
-- rust/engine/crates/app_core/src/engine/core/dispatch_command.rs: what `dispatch_command` does
-- before and after the arm of the command. The middleware before it, the session of the
-- authentication provider and the history record after it are not part of it.
use media_app.Prelude.{
  ℕ, Bool, true, false, not, ◌&&◌, none, some, List, [], ◌∷◌, ◌++◌, if◌then◌else◌,
}
use media_app.Model.Backend.{BackendUnavailableReason, unavailable}
use media_app.Model.Command.{EngineCommandType}
use media_app.Model.Effect.{EngineEffect, contains_play}
use media_app.Model.Error.{EngineErrorType}
use media_app.Model.Playback.{PlaybackState, same_state}
use media_app.Model.Snapshot.{
  EngineSnapshot, with_playback_state, with_error, with_busy, with_progress_tick,
  with_position_rebased_at, with_backend_availability,
}
use media_app.StateMachine.{next_state_from_command}
use media_app.Engine.State.{Engine, Draft}
use media_app.Engine.Controls.{refresh_controls}

-- `recovery.desired_play_when_ready` after the first `match` on the command.
abbrev pub desired_after : EngineCommandType → Bool → Bool
desired_after EngineCommandType.play desired = true
desired_after EngineCommandType.pause desired = false
desired_after (EngineCommandType.play_media_by_id _) desired = true
desired_after (EngineCommandType.play_queue _ _) desired = true
desired_after (EngineCommandType.voice_play _) desired = true
desired_after _ desired = desired

abbrev pub with_desired : Bool → Engine → Engine
with_desired desired e = record e {
  recovery = record e.recovery { desired_play_when_ready = desired };
}

abbrev is_playing_state : PlaybackState → Bool
is_playing_state s = same_state s PlaybackState.playing

-- `next_snapshot` before the arm of the command, from the state before and the state after.
unfoldable pub entering : PlaybackState → PlaybackState → ℕ → EngineSnapshot → EngineSnapshot
entering prev next now s =
    let rebased =
      if is_playing_state prev && same_state next PlaybackState.paused
      then with_position_rebased_at now s
      else s in
    let s' = with_busy false (with_error none (with_playback_state next now rebased)) in
    if not (is_playing_state prev) && is_playing_state next then with_progress_tick now s' else s'

unfoldable pub begin : EngineCommandType → ℕ → Engine → Draft
unfolding entering
begin c now e =
    let prev = e.snapshot.playback_state in
    record {
      engine = with_desired (desired_after c e.recovery.desired_play_when_ready) e;
      next_snapshot = entering prev (next_state_from_command prev c) now e.snapshot;
      effects = [];
      should_reassert_playback = false;
    }

-- The effects of entering a state, from the `match` after the arms.
abbrev pub entry_effects : PlaybackState → PlaybackState → List EngineEffect
entry_effects prev PlaybackState.buffering = EngineEffect.play ∷ []
entry_effects PlaybackState.buffering PlaybackState.playing = []
entry_effects prev PlaybackState.playing = EngineEffect.play ∷ []
entry_effects prev PlaybackState.paused = EngineEffect.pause ∷ []
entry_effects prev PlaybackState.idle = EngineEffect.stop ∷ []
entry_effects prev PlaybackState.ended = EngineEffect.pause ∷ []
entry_effects prev _ = []

unfoldable pub transition_effects : PlaybackState → PlaybackState → List EngineEffect
transition_effects prev next = if same_state prev next then [] else entry_effects prev next

-- `matches!(state, Buffering | Recovering)`.
abbrev pub is_loading : PlaybackState → Bool
is_loading PlaybackState.buffering = true
is_loading PlaybackState.recovering = true
is_loading _ = false

-- The effects with the `Play` that is pushed again where the command needs one.
unfoldable pub reasserted : Draft → List EngineEffect → List EngineEffect
reasserted d effects =
    if d.should_reassert_playback
      && (d.engine.recovery.desired_play_when_ready
          && (is_loading d.next_snapshot.playback_state && not (contains_play effects)))
    then effects ++ EngineEffect.play ∷ []
    else effects

-- `backend_unavailable_reason`.
unfoldable pub backend_unavailable_reason : EngineErrorType → BackendUnavailableReason
backend_unavailable_reason EngineErrorType.network_error =
    BackendUnavailableReason.network_unavailable
backend_unavailable_reason EngineErrorType.transport = BackendUnavailableReason.timeout
backend_unavailable_reason EngineErrorType.service_unavailable =
    BackendUnavailableReason.service_unavailable
backend_unavailable_reason _ = BackendUnavailableReason.connection_failed

-- `matches!(error_type, NetworkError | Transport | ServiceUnavailable)`.
abbrev pub is_connection_error : EngineErrorType → Bool
is_connection_error EngineErrorType.network_error = true
is_connection_error EngineErrorType.transport = true
is_connection_error EngineErrorType.service_unavailable = true
is_connection_error _ = false

unfoldable pub with_reachability : EngineSnapshot → EngineSnapshot
with_reachability s = elim s.last_error [
  | none ↦ s
  | some error ↦
      if is_connection_error error.error_type
      then with_backend_availability (unavailable (backend_unavailable_reason error.error_type)) s
      else s
]

-- The end of `dispatch_command`: the engine, and the effects of the outcome.
unfoldable pub settle : PlaybackState → Draft → Engine × List EngineEffect
unfolding transition_effects reasserted with_reachability
settle prev d = (
  refresh_controls (record d.engine { snapshot = with_reachability d.next_snapshot }),
  reasserted d (d.effects ++ transition_effects prev d.next_snapshot.playback_state),
)
