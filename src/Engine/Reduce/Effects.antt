-- ===== src/Engine/Reduce/Effects.antt =====
-- engine/core/dispatch_command.rs: how often a command asks the player to play.
use media_app.Prelude.{
  ℕ, ◌+◌, ◌≤◌, ◌≡◌, refl, Bool, true, false, some, List, [], ◌∷◌, ◌++◌, ◌⊎◌, arith, Bool-cases,
  Option-cases, inl, inr, map, if◌then◌else◌, String,
}
use media_app.Model.Command.{EngineCommandType}
use media_app.Model.Effect.{EngineEffect, is_play, contains_play}
use media_app.Model.Error.{EngineError, EngineResult, ok, err}
use media_app.Model.Media.{MediaItem}
use media_app.Model.Playback.{PlaybackState}
use media_app.Model.Snapshot.{EngineSnapshot, with_error}
use media_app.Engine.State.{Engine, Ports, Draft}
use media_app.Engine.Source.{update_media_state, resolve_playback_source, resolve_media}
use media_app.Queue.{set_items, set_current_index, next_item, previous_item, current_item}
use media_app.Engine.Settle.{begin, settle, transition_effects, reasserted, entry_effects}
use media_app.Engine.Transport.{
  load_media, with_state, failed, needs_play, select_media, skip_next, skip_previous, restart, play,
  seek, set_speed, start_session, end_session, refresh_backend_status,
}
use media_app.Engine.Play.{
  load_shown, busy, queue_media, failed_media, media_by_id, play_media_by_id, play_queue,
  voice_play,
}
use media_app.Engine.Reduce.{or_nil, arm, reduce}

-- The number of `Play` effects.
abbrev pub plays : List EngineEffect → ℕ
plays [] = 0
plays (effect ∷ effects) = (if is_play effect then 1 else 0) + plays effects

pub plays-append : (xs ys : List EngineEffect) → plays (xs ++ ys) ≡ plays xs + plays ys
plays-append [] ys = omega arith
plays-append (x ∷ xs) ys = omega (arith, plays-append xs ys)

contains_play_lem : (xs : List EngineEffect) → contains_play xs ≡ false → plays xs ≡ 0
contains_play_lem [] h = refl
contains_play_lem (x ∷ xs) h = elim (Bool-cases (is_play x)) [
  | inl e ↦ ground (arith, e)
  | inr e ↦ ground (arith, e, contains_play_lem xs)
]

-- No arm has asked to play yet.
abbrev pub IsQuiet : Draft → Type 0
IsQuiet d = plays d.effects ≡ 0

pub answer-cases :
    {A : Type 0} (r : EngineResult A) → ((a : A) × (r ≡ ok a)) ⊎ ((e : EngineError) × (r ≡ err e))
answer-cases (ok a) = inl (a, refl)
answer-cases (err e) = inr (e, refl)

module _ (ports : Ports) where
  load_media-IsQuiet :
      (media : MediaItem) (reassert : Bool) (enter : EngineSnapshot → EngineSnapshot)
      (fail : EngineError → EngineSnapshot → EngineSnapshot) (d : Draft)
      → IsQuiet d
      → IsQuiet (load_media ports media reassert enter fail d)
  unfolding load_media update_media_state resolve_playback_source
  load_media-IsQuiet media reassert enter fail d h =
      elim (answer-cases (resolve_media ports d.engine.prefetched_playback media)) [
        | inl (m, e) ↦ rw (e, load_media, resolve_playback_source) (grind (arith, plays-append))
        | inr (m, e) ↦ rw (e, load_media, resolve_playback_source) h
      ]

  load_shown-IsQuiet :
      (media : MediaItem) (d : Draft) → IsQuiet d → IsQuiet (load_shown ports media d)
  unfolding load_shown
  load_shown-IsQuiet media d h =
      load_media-IsQuiet media true (with_state PlaybackState.buffering) (failed_media media) d h

  skip_next-IsQuiet : (desired : Bool) (d : Draft) → IsQuiet d → IsQuiet (skip_next ports desired d)
  unfolding skip_next
  skip_next-IsQuiet desired d h = elim (Option-cases (next_item d.engine.queue).1) [
    | inl e ↦ rw (e, skip_next) h
    | inr (m, e) ↦
        rw (e, skip_next)
          (load_media-IsQuiet m desired (with_state PlaybackState.buffering) failed
            (record d { engine = record d.engine { queue = (next_item d.engine.queue).0 } }) h)
  ]

  skip_previous-IsQuiet :
      (desired : Bool) (prev : PlaybackState) (now : ℕ) (d : Draft)
      → IsQuiet d
      → IsQuiet (skip_previous ports desired prev now d)
  unfolding skip_previous restart
  skip_previous-IsQuiet desired prev now d h =
      elim (Option-cases (previous_item d.engine.queue).1) [
        | inl e ↦ grind (arith, plays-append)
        | inr (m, e) ↦
            let loaded =
              load_media-IsQuiet m desired (with_state PlaybackState.buffering) failed
                (record d { engine = record d.engine { queue = (previous_item d.engine.queue).0 } })
                h in
            ground (arith, e, loaded, plays-append d.effects (EngineEffect.seek 0 ∷ []))
      ]

  play-IsQuiet :
      (prev : PlaybackState) (now : ℕ) (d : Draft) → IsQuiet d → IsQuiet (play ports prev now d)
  unfolding play
  play-IsQuiet prev now d h =
      let d' = record d {
        should_reassert_playback = needs_play prev;
        engine = (select_media d.engine).0;
      } in
      elim (Option-cases (select_media d.engine).1) [
        | inl e ↦ ground (arith, e, plays-append d.effects (EngineEffect.seek 0 ∷ []))
        | inr (m, e) ↦ ground (
          arith,
          e,
          plays-append d.effects (EngineEffect.seek 0 ∷ []),
          load_media-IsQuiet m true (λ s. s) failed d' h,
        )
      ]

  play_media_by_id-IsQuiet :
      (media_id : String) (d : Draft) → IsQuiet d → IsQuiet (play_media_by_id ports media_id d)
  unfolding play_media_by_id
  play_media_by_id-IsQuiet media_id d h =
      let d' = busy d in
      elim (Option-cases (media_by_id ports d'.next_snapshot media_id)) [
        | inl e ↦ rw (e, play_media_by_id) h
        | inr (m, e) ↦
            rw (e, play_media_by_id)
              (load_shown-IsQuiet m
                (record d' {
                  engine = record d.engine { queue = set_items d.engine.queue (m ∷ []) };
                })
                h)
      ]

  play_queue-IsQuiet :
      (media_ids : List String) (start_index : ℕ) (d : Draft)
      → IsQuiet d
      → IsQuiet (play_queue ports media_ids start_index d)
  unfolding play_queue
  play_queue-IsQuiet media_ids start_index d h =
      let d' = busy d in
      let items = map (queue_media ports d'.next_snapshot) media_ids in
      let q = set_current_index (set_items d.engine.queue items) start_index in
      elim (Option-cases (current_item q)) [
        | inl e ↦ rw (e, play_queue) h
        | inr (m, e) ↦
            rw (e, play_queue)
              (load_shown-IsQuiet m (record d' { engine = record d.engine { queue = q } }) h)
      ]

  voice_play-IsQuiet :
      (query : String) (found : List MediaItem) (d : Draft)
      → IsQuiet d
      → IsQuiet (voice_play ports query found d)
  unfolding voice_play
  voice_play-IsQuiet query [] d h = grind (arith, plays-append)
  voice_play-IsQuiet query (m ∷ ms) d h =
      load_media-IsQuiet m true (with_state PlaybackState.buffering)
        (λ error s. with_state PlaybackState.error (with_error (some error) s)) (busy d) h

  pub arm-IsQuiet :
      (c : EngineCommandType) (prev : PlaybackState) (desired : Bool) (now : ℕ) (d d' : Draft)
      → IsQuiet d
      → arm ports c prev desired now d ≡ some d'
      → IsQuiet d'
  unfolding arm seek set_speed start_session end_session refresh_backend_status
  arm-IsQuiet EngineCommandType.play prev desired now d d' h e =
      ground (arith, play-IsQuiet prev now d h)
  arm-IsQuiet EngineCommandType.skip_previous prev desired now d d' h e =
      ground (arith, skip_previous-IsQuiet desired prev now d h)
  arm-IsQuiet EngineCommandType.skip_next prev desired now d d' h e =
      ground (arith, skip_next-IsQuiet desired d h)
  arm-IsQuiet (EngineCommandType.voice_play query) prev desired now d d' h e =
      ground (arith, voice_play-IsQuiet query (or_nil (ports.search query)) d h)
  arm-IsQuiet (EngineCommandType.play_media_by_id media_id) prev desired now d d' h e =
      ground (arith, play_media_by_id-IsQuiet media_id d h)
  arm-IsQuiet (EngineCommandType.play_queue media_ids start_index) prev desired now d d' h e =
      ground (arith, play_queue-IsQuiet media_ids start_index d h)
  arm-IsQuiet c prev desired now d d' h e = grind (arith, plays-append)

entry_effects_once : (prev next : PlaybackState) → plays (entry_effects prev next) ≤ 1
entry_effects_once prev next = ground arith

settle_once : (prev : PlaybackState) (d : Draft) → IsQuiet d → plays (settle prev d).1 ≤ 1
unfolding settle transition_effects reasserted
settle_once prev d h =
    let effects = d.effects ++ transition_effects prev d.next_snapshot.playback_state in
    let here = plays-append d.effects (transition_effects prev d.next_snapshot.playback_state) in
    let there = plays-append effects (EngineEffect.play ∷ []) in
    elim (Bool-cases (contains_play effects)) [
      | inl e ↦ ground (arith, e, here, entry_effects_once prev d.next_snapshot.playback_state)
      | inr e ↦ ground (arith, e, there, contains_play_lem effects e)
    ]

-- A command that `arm` covers asks the player to play at most once.
pub reduce-plays_once :
    (ports : Ports) (c : EngineCommandType) (now : ℕ) (e e' : Engine) (effects : List EngineEffect)
    → reduce ports c now e ≡ some (e', effects)
    → plays effects ≤ 1
unfolding reduce begin
reduce-plays_once ports c now e e' effects r =
    let prev = e.snapshot.playback_state in
    elim (Option-cases (arm ports c prev e.recovery.desired_play_when_ready now (begin c now e))) [
      | inl stop ↦ ground (arith, stop)
      | inr (d, armed) ↦
          let quiet =
            arm-IsQuiet ports c prev e.recovery.desired_play_when_ready now (begin c now e) d refl
              armed in
          ground (arith, armed, settle_once prev d quiet)
    ]
