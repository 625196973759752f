-- ===== src/Engine/PlatformEvents/Recovery.antt =====
-- engine/core/dispatch_platform_event.rs: the player is replaced at most once for a load, whatever
-- fails and however often.
use media_app.Prelude.{
  ℕ, ◌+◌, ◌≤◌, ◌≡◌, refl, false, Option, none, some, List, ◌⊎◌, inl, inr, arith, sym, opt_eq_sound,
  Bool-cases, Option-cases, String,
}
use media_app.Model.Effect.{EngineEffect}
use media_app.Model.PlatformEvent.{PlaybackObservationPayload}
use media_app.Engine.State.{Engine, Ports}
use media_app.Engine.Observe.{observed, is_stale}
use media_app.Engine.PlatformEvents.{observe, handle}
use media_app.Engine.PlatformEvents.Failures.{
  replacements, failure, IsSpent, general_keeps, handle-IsSpent, handle_once,
}

-- Failures that the engine observes, one after the other, with the number of players replaced.
pub data Failing (ports : Ports) : Engine → ℕ → Engine → Type 0 where
  stop : {e : Engine} → Failing ports e 0 e
  fail :
      {e e' e'' : Engine} {effects : List EngineEffect} {n : ℕ} (payload : Option String) (now : ℕ)
      → observe ports (failure payload) now e ≡ some (e', effects)
      → Failing ports e' n e''
      → Failing ports e (replacements effects + n) e''

-- An observation that is not stale is of the current instance.
current_lem :
    (o : PlaybackObservationPayload) (current : Option ℕ)
    → is_stale (some o) current ≡ false
    → current ≡ some o.playback_instance_id
unfolding is_stale
current_lem o current h = sym (opt_eq_sound (some o.playback_instance_id) current (ground arith))

module _ (ports : Ports) (payload : Option String) (now : ℕ) (e e' : Engine)
    (effects : List EngineEffect)
    (r : observe ports (failure payload) now e ≡ some (e', effects)) where
  observe-IsSpent : IsSpent e → IsSpent e' × (replacements effects ≡ 0)
  unfolding observe handle is_stale
  observe-IsSpent h = elim (Option-cases (observed ports (failure payload))) [
    | inl unread ↦ ground (arith, r, unread, h, general_keeps ports payload none now e)
    | inr (o, read) ↦ elim (Bool-cases (is_stale (some o) e.current_playback_instance_id)) [
      | inl stale ↦ ground (arith, r, read, stale, h)
      | inr fresh ↦
          handle-IsSpent ports payload o now e e' effects
            (current_lem o e.current_playback_instance_id fresh) h (ground (arith, r, read, fresh))
    ]
  ]

  observe_once : (replacements effects ≡ 0) ⊎ ((replacements effects ≡ 1) × IsSpent e')
  unfolding observe handle
  observe_once = elim (Option-cases (observed ports (failure payload))) [
    | inl unread ↦ grind (arith, r, unread, general_keeps ports payload none now e)
    | inr (o, read) ↦ elim (Bool-cases (is_stale (some o) e.current_playback_instance_id)) [
      | inl stale ↦ grind (arith, r, read, stale)
      | inr fresh ↦ handle_once ports payload o now e e' effects (ground (arith, r, read, fresh))
    ]
  ]

spent_replaces_none :
    {ports : Ports} {e e' : Engine} {n : ℕ} → Failing ports e n e' → IsSpent e → n ≡ 0
spent_replaces_none stop h = refl
spent_replaces_none {ports = ports} (fail {e} {e'} {e''} {effects} {n} payload now r rest) h =
    let (spent, none_here) = observe-IsSpent ports payload now e e' effects r h in
    omega (arith, none_here, spent_replaces_none rest spent)

-- However many failures the player reports one after the other, of whatever kind, about whatever
-- instance and in whatever order, it is replaced at most once.
pub replaced_at_most_once : {ports : Ports} {e e' : Engine} {n : ℕ} → Failing ports e n e' → n ≤ 1
replaced_at_most_once stop = omega arith
replaced_at_most_once {ports = ports} (fail {e} {e'} {e''} {effects} {n} payload now r rest) =
    elim (observe_once ports payload now e e' effects r) [
      | inl none_here ↦ omega (arith, none_here, replaced_at_most_once rest)
      | inr (one, spent) ↦ omega (arith, one, spent_replaces_none rest spent)
    ]
