-- ===== src/Engine/PlatformEvents/Intent.antt =====
-- engine/core/dispatch_platform_event.rs: the player starts only if the engine means to play.
use media_app.Prelude.{
  ℕ, ◌≡◌, true, ◌&&◌, Option, none, some, List, ◌⊎◌, inl, inr, arith, Bool-cases, Option-cases,
  opt_eq, String,
}
use media_app.Model.Effect.{EngineEffect}
use media_app.Model.PlatformEvent.{
  EnginePlatformEventType, EnginePlatformEvent, PlaybackObservationPayload,
}
use media_app.Model.Playback.{PlaybackState}
use media_app.Queue.{current_item}
use media_app.StateMachine.{next_state_from_platform_event}
use media_app.Engine.State.{Engine, Ports}
use media_app.Engine.Controls.{refresh_controls}
use media_app.Engine.Source.{resolve_playback_source, resolve_media, update_media_state, loading}
use media_app.Engine.Observe.{
  observed, is_player_event, is_stale, Step, done, go_on, source_rejected, refreshed,
  decoder_failed, replaced, given_up,
}
use media_app.Engine.PlatformEvents.{observe, handle, general, completed, next_state_after}
use media_app.Engine.PlatformEvents.Failures.{Step-cases, failure}
use media_app.Engine.Reduce.Effects.{plays, answer-cases}

-- The engine means to play, or it stood in the error state.
abbrev Means : Engine → Engine → List EngineEffect → Type 0
Means e e' effects =
    (plays effects ≡ 0)
    ⊎ (e'.recovery.desired_play_when_ready ≡ true)
    ⊎ (e.snapshot.playback_state ≡ PlaybackState.error)

general-Means :
    (ports : Ports) (event : EnginePlatformEvent) (o : Option PlaybackObservationPayload) (now : ℕ)
    (e : Engine)
    → Means e (general ports event o now e).0 (general ports event o now e).1
unfolding general refresh_controls next_state_after next_state_from_platform_event
general-Means ports event o now e = grind arith

-- A report of a failure never starts the player on the general path.
failure_quiet :
    (ports : Ports) (payload : Option String) (o : Option PlaybackObservationPayload) (now : ℕ)
    (e : Engine)
    → plays (general ports (failure payload) o now e).1 ≡ 0
unfolding general next_state_after next_state_from_platform_event
failure_quiet ports payload o now e = ground arith

abbrev MeansStep : Step → Type 0
MeansStep (done e effects) = (plays effects ≡ 0) ⊎ (e.recovery.desired_play_when_ready ≡ true)
MeansStep (go_on e) = Unit {0}

source_rejected-MeansStep :
    (ports : Ports) (id now : ℕ) (e : Engine) → MeansStep (source_rejected ports id now e)
unfolding source_rejected refreshed resolve_playback_source update_media_state loading
    refresh_controls
source_rejected-MeansStep ports id now e =
    elim (Bool-cases (opt_eq e.recovery.source_refresh_attempted_for (some id))) [
      | inl again ↦ rw (again, source_rejected) tt
      | inr first ↦ elim (Option-cases (current_item e.queue)) [
        | inl empty ↦ rw (first, empty, source_rejected) tt
        | inr (media, selected) ↦
            elim (answer-cases (resolve_media ports e.prefetched_playback media)) [
              | inl (m, answer) ↦
                  rw (first, selected, answer, source_rejected, resolve_playback_source, refreshed)
                    (grind arith)
              | inr (m, answer) ↦
                  rw (first, selected, answer, source_rejected, resolve_playback_source) tt
            ]
      ]
    ]

decoder_failed-Means :
    (o : PlaybackObservationPayload) (now : ℕ) (e : Engine)
    → (plays (decoder_failed o now e).1 ≡ 0)
      ⊎ ((decoder_failed o now e).0.recovery.desired_play_when_ready ≡ true)
unfolding decoder_failed given_up replaced refresh_controls
decoder_failed-Means o now e = grind arith

-- The event is not a press of a media button.
abbrev pub IsReport : EnginePlatformEventType → Type 0
IsReport EnginePlatformEventType.media_button_pressed = ⊥
IsReport _ = Unit {0}

module _ (ports : Ports) (payload : Option String) (o : Option PlaybackObservationPayload) (now : ℕ)
    (e e' : Engine) (effects : List EngineEffect) where
  failure-Means : handle ports (failure payload) o now e ≡ some (e', effects) → Means e e' effects
  unfolding handle
  failure-Means r = elim (Option-cases o) [
    | inl none_read ↦ ground (arith, r, none_read, failure_quiet ports payload none now e)
    | inr (seen, read) ↦ elim (Step-cases (source_rejected ports seen.playback_instance_id now e)) [
      | inl (f, asked, step) ↦
          let told = source_rejected-MeansStep ports seen.playback_instance_id now e in
          let means = rw step at told in
          grind (
            arith,
            r,
            read,
            step,
            means,
            failure_quiet ports payload o now e,
            decoder_failed-Means seen now e,
          )
      | inr (f, step) ↦ grind (
        arith,
        r,
        read,
        step,
        failure_quiet ports payload o now e,
        failure_quiet ports payload o now f,
        decoder_failed-Means seen now e,
      )
    ]
  ]

handle-Means :
    (ports : Ports) (t : EnginePlatformEventType) (payload : Option String)
    (o : Option PlaybackObservationPayload) (now : ℕ) (e e' : Engine) (effects : List EngineEffect)
    → IsReport t
    → handle ports (record { event_type = t; payload = payload }) o now e ≡ some (e', effects)
    → Means e e' effects
unfolding handle completed
handle-Means ports EnginePlatformEventType.media_button_pressed payload o now e e' effects t r =
    absurd t
handle-Means ports EnginePlatformEventType.media_error payload o now e e' effects t r =
    failure-Means ports payload o now e e' effects r
handle-Means ports EnginePlatformEventType.media_loaded payload o now e e' effects t r = grind (
  arith,
  r,
  general-Means ports
      (record { event_type = EnginePlatformEventType.media_loaded; payload = payload }) o now
      (record e { pending_seek_target_millis = none }),
)
handle-Means ports EnginePlatformEventType.playback_completed payload o now e e' effects t r =
    grind (arith, r)
handle-Means ports EnginePlatformEventType.playback_position_checkpoint payload o now e e' effects t
      r =
    grind (arith, r)
handle-Means ports t payload o now e e' effects h r =
    grind (arith, r, general-Means ports (record { event_type = t; payload = payload }) o now e)

-- An event other than a media button asks the player to play only if the engine then means to play
-- when ready, or if it stood in the error state.
pub observe-plays :
    (ports : Ports) (event : EnginePlatformEvent) (now : ℕ) (e e' : Engine)
    (effects : List EngineEffect)
    → IsReport event.event_type
    → observe ports event now e ≡ some (e', effects)
    → (plays effects ≡ 0)
      ⊎ (e'.recovery.desired_play_when_ready ≡ true)
      ⊎ (e.snapshot.playback_state ≡ PlaybackState.error)
unfolding observe
observe-plays ports event now e e' effects t r =
    let o = observed ports event in
    elim (Bool-cases
      (is_player_event event.event_type && is_stale o e.current_playback_instance_id)) [
        | inl stale ↦ grind (arith, r, stale)
        | inr fresh ↦
            handle-Means ports event.event_type event.payload o now e e' effects t
              (ground (arith, r, fresh))
      ]
