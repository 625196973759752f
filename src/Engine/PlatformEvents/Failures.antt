-- ===== src/Engine/PlatformEvents/Failures.antt =====
-- engine/core/dispatch_platform_event.rs: what one failure of the player does to the replacement that
-- is left.
use media_app.Prelude.{
  ℕ, suc, ◌≡◌, refl, true, Option, some, List, [], ◌∷◌, ◌⊎◌, inl, inr, arith, opt_eq, opt_eq_refl,
  Bool-cases, Option-cases, String,
}
use media_app.Model.Effect.{EngineEffect, recreate_player_and_load}
use media_app.Model.PlatformEvent.{
  EnginePlatformEventType, EnginePlatformEvent, PlaybackObservationPayload,
}
use media_app.Queue.{current_item}
use media_app.Engine.State.{Engine, Ports}
use media_app.Engine.Controls.{refresh_controls}
use media_app.Engine.Source.{resolve_playback_source, resolve_media, update_media_state, loading}
use media_app.Engine.Observe.{
  source_rejected, decoder_failed, refreshed, replaced, given_up, Step, done, go_on,
}
use media_app.Engine.PlatformEvents.{handle, general}
use media_app.Engine.Reduce.Effects.{answer-cases}

-- The number of players that the effects replace.
abbrev pub replacements : List EngineEffect → ℕ
replacements [] = 0
replacements (recreate_player_and_load _ _ _ ∷ effects) = suc (replacements effects)
replacements (_ ∷ effects) = replacements effects

-- The failure that the player reports with a payload.
abbrev pub failure : Option String → EnginePlatformEvent
failure payload = record { event_type = EnginePlatformEventType.media_error; payload = payload }

-- The one replacement was used for the current instance.
abbrev pub IsSpent : Engine → Type 0
IsSpent e = e.recovery.decoder_attempted_for ≡ e.current_playback_instance_id

module _ (ports : Ports) (payload : Option String) (o : Option PlaybackObservationPayload)
    (now : ℕ) where
  pub general_keeps :
      (e : Engine)
      → ((general ports (failure payload) o now e).0.recovery ≡ e.recovery)
        × ((general ports (failure payload) o now e).0.current_playback_instance_id
            ≡ e.current_playback_instance_id)
        × (replacements (general ports (failure payload) o now e).1 ≡ 0)
  unfolding general refresh_controls
  general_keeps e = (refl, refl, ground arith)

-- What a step of `source_rejected` leaves: no player was replaced, and the replacement is still used
-- up if it was.
abbrev Keeps : Step → Type 0
Keeps (done e effects) = IsSpent e × (replacements effects ≡ 0)
Keeps (go_on e) = IsSpent e

abbrev Asks : Step → Type 0
Asks (done e effects) = replacements effects ≡ 0
Asks (go_on e) = Unit {0}

source_rejected-Keeps :
    (ports : Ports) (id now : ℕ) (e : Engine)
    → e.current_playback_instance_id ≡ some id
    → IsSpent e
    → Keeps (source_rejected ports id now e)
unfolding source_rejected refreshed resolve_playback_source update_media_state loading
    refresh_controls
source_rejected-Keeps ports id now e c h =
    elim (Bool-cases (opt_eq e.recovery.source_refresh_attempted_for (some id))) [
      | inl again ↦ rw (again, source_rejected) h
      | inr first ↦ elim (Option-cases (current_item e.queue)) [
        | inl empty ↦ rw (first, empty, source_rejected) h
        | inr (media, selected) ↦
            elim (answer-cases (resolve_media ports e.prefetched_playback media)) [
              | inl (m, answer) ↦
                  rw (first, selected, answer, source_rejected, resolve_playback_source, refreshed)
                    (ground (arith, h, c), ground arith)
              | inr (m, answer) ↦
                  rw (first, selected, answer, source_rejected, resolve_playback_source) h
            ]
      ]
    ]

source_rejected-Asks :
    (ports : Ports) (id now : ℕ) (e : Engine) → Asks (source_rejected ports id now e)
unfolding source_rejected refreshed resolve_playback_source update_media_state
source_rejected-Asks ports id now e =
    elim (Bool-cases (opt_eq e.recovery.source_refresh_attempted_for (some id))) [
      | inl again ↦ rw (again, source_rejected) tt
      | inr first ↦ elim (Option-cases (current_item e.queue)) [
        | inl empty ↦ rw (first, empty, source_rejected) tt
        | inr (media, selected) ↦
            elim (answer-cases (resolve_media ports e.prefetched_playback media)) [
              | inl (m, answer) ↦
                  rw (first, selected, answer, source_rejected, resolve_playback_source, refreshed)
                    (ground arith)
              | inr (m, answer) ↦
                  rw (first, selected, answer, source_rejected, resolve_playback_source) tt
            ]
      ]
    ]

decoder_failed-IsSpent :
    (o : PlaybackObservationPayload) (now : ℕ) (e : Engine)
    → e.current_playback_instance_id ≡ some o.playback_instance_id
    → IsSpent e
    → IsSpent (decoder_failed o now e).0 × (replacements (decoder_failed o now e).1 ≡ 0)
unfolding decoder_failed given_up refresh_controls
decoder_failed-IsSpent o now e c h =
    let tried : opt_eq e.recovery.decoder_attempted_for (some o.playback_instance_id) ≡ true =
      rw (h, c) (opt_eq_refl (some o.playback_instance_id)) in
    rw (tried, decoder_failed) (h, refl)

decoder_failed_once :
    (o : PlaybackObservationPayload) (now : ℕ) (e : Engine)
    → (replacements (decoder_failed o now e).1 ≡ 0)
      ⊎ ((replacements (decoder_failed o now e).1 ≡ 1) × IsSpent (decoder_failed o now e).0)
unfolding decoder_failed given_up replaced refresh_controls
decoder_failed_once o now e =
    elim (Bool-cases (opt_eq e.recovery.decoder_attempted_for (some o.playback_instance_id))) [
      | inl tried ↦ rw (tried, decoder_failed) (inl refl)
      | inr fresh ↦ elim (Option-cases e.snapshot.media_id) [
        | inl empty ↦ rw (fresh, empty, decoder_failed) (inl refl)
        | inr (m, loaded) ↦ rw (fresh, loaded, decoder_failed, replaced) (inr (ground arith, refl))
      ]
    ]

pub Step-cases :
    (s : Step)
    → ((e : Engine) × (effects : List EngineEffect) × (s ≡ done e effects))
      ⊎ ((e : Engine) × (s ≡ go_on e))
Step-cases (done e effects) = inl (e, effects, refl)
Step-cases (go_on e) = inr (e, refl)

module _ (ports : Ports) (payload : Option String) (o : PlaybackObservationPayload) (now : ℕ)
    (e e' : Engine) (effects : List EngineEffect) where
  pub handle-IsSpent :
      e.current_playback_instance_id ≡ some o.playback_instance_id
      → IsSpent e
      → handle ports (failure payload) (some o) now e ≡ some (e', effects)
      → IsSpent e' × (replacements effects ≡ 0)
  unfolding handle
  handle-IsSpent c h r =
      let kept = general_keeps ports payload (some o) now e in
      elim (Step-cases (source_rejected ports o.playback_instance_id now e)) [
        | inl (f, asked, step) ↦
            let rejected = source_rejected-Keeps ports o.playback_instance_id now e c h in
            let rejected' = rw step at rejected in
            ground (arith, r, step, h, kept, rejected', decoder_failed-IsSpent o now e c h)
        | inr (f, step) ↦
            let rejected = source_rejected-Keeps ports o.playback_instance_id now e c h in
            let rejected' = rw step at rejected in
            ground (
              arith,
              r,
              step,
              h,
              kept,
              rejected',
              general_keeps ports payload (some o) now f,
              decoder_failed-IsSpent o now e c h,
            )
      ]

  pub handle_once :
      handle ports (failure payload) (some o) now e ≡ some (e', effects)
      → (replacements effects ≡ 0) ⊎ ((replacements effects ≡ 1) × IsSpent e')
  unfolding handle
  handle_once r =
      let kept = general_keeps ports payload (some o) now e in
      let rejected = source_rejected-Asks ports o.playback_instance_id now e in
      elim (Step-cases (source_rejected ports o.playback_instance_id now e)) [
        | inl (f, asked, step) ↦
            let rejected' = rw step at rejected in
            grind (arith, r, step, kept, rejected', decoder_failed_once o now e)
        | inr (f, step) ↦ grind (
          arith,
          r,
          step,
          kept,
          general_keeps ports payload (some o) now f,
          decoder_failed_once o now e,
        )
      ]
