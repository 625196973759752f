-- ===== src/Engine/PlatformEvents/Guards.antt =====
-- engine/core/dispatch_platform_event.rs: which observations of the player are believed, and what
-- becomes of the position.
use media_app.Prelude.{
  ℕ, ◌≤◌, ◌≡◌, ◌≢◌, true, Option, none, some, [], ◌⊎◌, inl, inr, arith, sym, opt_eq, opt_eq_sound,
  abs_diff, Bool-cases,
}
use media_app.Model.PlatformEvent.{EnginePlatformEvent, PlaybackObservationPayload}
use media_app.Model.Snapshot.{EngineSnapshot}
use media_app.Engine.State.{Engine, Ports}
use media_app.Engine.Observe.{observed, is_player_event, is_stale, checkpoint}
use media_app.Engine.PlatformEvents.{observe}

-- An event of the player that carries an observation of an instance other than the current one
-- changes nothing and asks for nothing.
pub observe_stale :
    (ports : Ports) (event : EnginePlatformEvent) (o : PlaybackObservationPayload) (now : ℕ)
    (e : Engine)
    → is_player_event event.event_type ≡ true
    → observed ports event ≡ some o
    → e.current_playback_instance_id ≢ some o.playback_instance_id
    → observe ports event now e ≡ some (e, [])
unfolding observe is_stale
observe_stale ports event o now e p seen other =
    elim (Bool-cases (opt_eq (some o.playback_instance_id) e.current_playback_instance_id)) [
      | inl same ↦ absurd (
          other
            (sym (opt_eq_sound (some o.playback_instance_id) e.current_playback_instance_id same)))
      | inr differ ↦ ground (arith, p, seen, differ)
    ]

-- A position within a duration, if that is known.
abbrev pub Within : Option ℕ → ℕ → Type 0
Within none position = Unit {0}
Within (some duration) position = position ≤ duration

-- The position does not exceed the duration.
abbrev pub PositionFits : EngineSnapshot → Type 0
PositionFits s = Within s.duration_millis s.position_millis

-- While a seek has not settled, a checkpoint is dropped, or its position is at most 1500 ms from the
-- target and the seek has settled.
pub checkpoint_seek :
    (o : Option PlaybackObservationPayload) (now target : ℕ) (e : Engine)
    → e.pending_seek_target_millis ≡ some target
    → (checkpoint o now e ≡ e)
      ⊎ ((abs_diff (checkpoint o now e).snapshot.position_millis target ≤ 1500)
          × ((checkpoint o now e).pending_seek_target_millis ≡ none))
unfolding checkpoint
checkpoint_seek o now target e h = grind (arith, h)
