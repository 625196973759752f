-- ===== src/Engine/Reduce/Outcomes.antt =====
-- engine/core/dispatch_command.rs: what single commands do to the engine, and what the snapshot
-- shows after any of them.
use media_app.Prelude.{
  ℕ, ◌≡◌, refl, true, false, none, some, List, [], ◌∷◌, length, arith, Option-cases, saturating_add,
  ◌⊎◌, inl, inr, String, eq_iff, ap, ◌∙◌,
}
use mathlib.Core.Path.{subst}
use media_app.Model.Command.{EngineCommandType}
use media_app.Model.Effect.{EngineEffect, prepare_playback_source, update_metadata}
use media_app.Model.Error.{ok}
use media_app.Model.Media.{MediaItem}
use media_app.Model.Playback.{PlaybackState}
use media_app.Model.Preferences.{ThemePreference, PreferenceSource}
use media_app.Model.Snapshot.{EngineSnapshot, can_dispatch, with_media, with_playback_expiry}
use media_app.Queue.{has_next, set_items, current_item}
use media_app.Queue.Invariant.{IsValid}
use media_app.Queue.Cursor.{next_item-no_next}
use media_app.StateMachine.{next_state_from_command}
use media_app.StateMachine.Traces.{wants_sound}
use media_app.Engine.State.{Engine, Ports, Draft}
use media_app.Engine.Controls.{derive_controls, refresh_controls}
use media_app.Engine.Source.{
  ResolvedPlaybackMedia, resolve_media, resolve_playback_source, update_media_state, projected,
  start_position, loading,
}
use media_app.Engine.Settle.{
  begin, settle, with_reachability, transition_effects, reasserted, entering,
}
use media_app.Engine.Transport.{load_media, skip_next, with_state, with_next}
use media_app.Engine.Play.{play_media_by_id, media_by_id, load_shown, busy, not_busy}
use media_app.Engine.Preferences.{apply_remote_theme, session_user}
use media_app.Engine.Reduce.{arm, reduce}
use media_app.Engine.Reduce.Effects.{plays}

-- The snapshot shows the queue as it is, and the controls that belong to the queue and to the
-- snapshot.
abbrev pub Projects : Engine → Type 0
Projects e =
    (e.snapshot.controls ≡ derive_controls e.queue e.snapshot)
    × (e.snapshot.queue_size ≡ length e.queue.items)
    × (e.snapshot.queue_current_index ≡ e.queue.current_index)
    × (e.snapshot.queue_generation ≡ e.queue.generation)

settle-Projects : (prev : PlaybackState) (d : Draft) → Projects (settle prev d).0
unfolding settle refresh_controls derive_controls can_dispatch
settle-Projects prev d = (refl, refl, refl, refl)

-- After a command that `arm` covers the snapshot shows the queue as it is, and the controls that
-- belong to that queue and to the snapshot.
pub reduce-Projects :
    (ports : Ports) (c : EngineCommandType) (now : ℕ) (e e' : Engine) (effects : List EngineEffect)
    → reduce ports c now e ≡ some (e', effects)
    → Projects e'
unfolding reduce
reduce-Projects ports c now e e' effects r =
    let prev = e.snapshot.playback_state in
    elim (Option-cases (arm ports c prev e.recovery.desired_play_when_ready now (begin c now e))) [
      | inl stop ↦ ground (arith, stop)
      | inr (d, armed) ↦
          let same : (settle prev d).0 ≡ e' = ground (arith, armed) in
          subst Projects same (settle-Projects prev d)
    ]

-- A pause command is carried out in every state: no effect asks to play, the engine no longer means
-- to play when ready, and its state is none in which sound is wanted.
pub pause_pauses :
    (ports : Ports) (now : ℕ) (e : Engine)
    → (e' : Engine) × (effects : List EngineEffect) × (reduce ports EngineCommandType.pause now e
        ≡ some (e', effects))
      × (plays effects ≡ 0)
      × (e'.recovery.desired_play_when_ready ≡ false)
      × (wants_sound e'.snapshot.playback_state ≡ false)
unfolding reduce arm begin settle refresh_controls next_state_from_command transition_effects
    reasserted entering
pause_pauses ports now e =
    let outcome = settle e.snapshot.playback_state (begin EngineCommandType.pause now e) in
    (outcome.0, outcome.1, refl, ground arith, ground arith, ground arith)

-- Where the cursor of the queue is valid and nothing is next, `reduce` for a press of next asks
-- nothing of the player and moves nothing: from the engine that it is given, whose authentication
-- state is projected already, it derives the controls and the reachability again, and leaves all
-- else to the history record and the middleware after it.
pub skip_next_boundary :
    (ports : Ports) (now : ℕ) (e : Engine)
    → IsValid e.queue
    → has_next e.queue ≡ false
    → reduce ports EngineCommandType.skip_next now e
      ≡ some (refresh_controls (record e { snapshot = with_reachability e.snapshot }), [])
unfolding reduce arm skip_next begin settle transition_effects reasserted
skip_next_boundary ports now e v h =
    let still = next_item-no_next e.queue v h in ground (arith, still)

-- A remote theme preference is dropped, or it is taken over: then the session is that user's, the
-- preference had the revision that it was fetched at, and it is recorded as remote and that user's.
pub apply_remote_theme_guard :
    (theme : ThemePreference) (user_id : String) (baseline : ℕ) (s : EngineSnapshot)
    → (apply_remote_theme theme user_id baseline s ≡ s)
      ⊎ ((session_user s.session ≡ some user_id)
          × (s.theme_preference.revision ≡ baseline)
          × (apply_remote_theme theme user_id baseline s ≡ record s {
            theme_preference = record {
              theme = theme;
              source = PreferenceSource.remote_profile;
              revision = saturating_add baseline 1;
              session_user_id = some user_id;
            };
          }))
unfolding apply_remote_theme
apply_remote_theme_guard theme user_id baseline s = elim (Option-cases (session_user s.session)) [
  | inl e ↦ grind (arith, e)
  | inr (u, e) ↦ grind (arith, e, eq_iff u user_id)
]

-- When a media item is known to the repository and its source is resolved, a command to play it makes
-- it the whole queue, loads it under a new playback instance and asks to play once, and the state is
-- buffering, without an error and not busy.
pub play_media_by_id_loads :
    (ports : Ports) (media_id : String) (now : ℕ) (e : Engine) (media : MediaItem)
    (resolved : ResolvedPlaybackMedia)
    → ports.get_by_id media_id ≡ some media
    → resolve_media ports e.prefetched_playback media ≡ ok resolved
    → (e' : Engine) × (start : ℕ) × (reduce ports
          (EngineCommandType.play_media_by_id media_id)
          now
          e
        ≡ some (
          e',
          prepare_playback_source resolved.media.id
                (saturating_add e.next_playback_instance_id 1)
                start
              ∷ update_metadata resolved.media.id resolved.media.title resolved.media.artist
              ∷ EngineEffect.play
              ∷ [],
        ))
      × (e'.queue.items ≡ media ∷ [])
      × (current_item e'.queue ≡ some media)
      × (e'.current_playback_instance_id ≡ some (saturating_add e.next_playback_instance_id 1))
      × (e'.snapshot.playback_state ≡ PlaybackState.buffering)
      × (e'.snapshot.media_id ≡ some resolved.media.id)
      × (e'.snapshot.last_error ≡ none)
      × (e'.snapshot.is_busy ≡ false)
      × (e'.recovery.desired_play_when_ready ≡ true)
unfolding reduce arm play_media_by_id media_by_id load_shown load_media resolve_playback_source
    update_media_state loading projected begin settle refresh_controls transition_effects reasserted
    entering set_items current_item with_reachability with_media with_playback_expiry
play_media_by_id_loads ports media_id now e media resolved g r =
    let prev = e.snapshot.playback_state in
    let d = begin (EngineCommandType.play_media_by_id media_id) now e in
    let queued = record d.engine {
      queue = set_items d.engine.queue (media ∷ []);
      prefetched_playback = none;
    } in
    let d' =
      update_media_state resolved
        (record (busy d) { engine = queued; should_reassert_playback = true }) in
    let loaded = not_busy (with_next (with_state PlaybackState.buffering d'.next_snapshot) d') in
    let armed : play_media_by_id ports media_id d ≡ loaded =
      rw (g, r, play_media_by_id, media_by_id, load_shown, load_media, resolve_playback_source)
        refl in
    let asks : (settle prev loaded).1 ≡ (
        prepare_playback_source resolved.media.id (saturating_add e.next_playback_instance_id 1)
          (start_position resolved.media (busy d).next_snapshot)
        ∷ update_metadata resolved.media.id resolved.media.title resolved.media.artist
        ∷ EngineEffect.play
        ∷ []) =
      ground arith in
    (
      (settle prev loaded).0,
      start_position resolved.media (busy d).next_snapshot,
      ap (λ x. some (settle prev x)) armed ∙ ap (λ x. some ((settle prev loaded).0, x)) asks,
      refl,
      refl,
      refl,
      ground arith,
      ground arith,
      ground arith,
      ground arith,
      refl,
    )
