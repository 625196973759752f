-- ===== src/Engine/Reduce/Intent.antt =====
-- engine/core/dispatch_command.rs: a command starts the player only if the engine means to play.
use media_app.Prelude.{
  ℕ, ◌≡◌, ◌≢◌, refl, Bool, true, some, List, [], ◌∷◌, ◌⊎◌, inl, inr, arith, Bool-cases,
  Option-cases, String, map,
}
use media_app.Model.Command.{EngineCommandType}
use media_app.Model.Effect.{EngineEffect}
use media_app.Model.Error.{EngineError}
use media_app.Model.Media.{MediaItem}
use media_app.Model.Playback.{PlaybackState}
use media_app.Model.Snapshot.{EngineSnapshot, with_error, with_session}
use media_app.Queue.{next_item, current_item, set_items, set_current_index}
use media_app.StateMachine.{next_state_from_command}
use media_app.Engine.State.{Engine, Ports, Draft}
use media_app.Engine.Controls.{refresh_controls}
use media_app.Engine.Source.{resolve_playback_source, resolve_media, update_media_state, loading}
use media_app.Engine.Settle.{begin, entering, settle, transition_effects, reasserted}
use media_app.Engine.Transport.{
  load_media, with_state, failed, needs_play, select_media, skip_next, play, seek, set_speed,
  start_session, end_session, refresh_backend_status,
}
use media_app.Engine.Play.{
  load_shown, busy, queue_media, failed_media, media_by_id, play_media_by_id, play_queue,
  voice_play,
}
use media_app.Engine.Preferences.{hydrate_theme, set_theme, apply_remote_theme}
use media_app.Engine.Reduce.{or_nil, arm, reduce}
use media_app.Engine.Reduce.Effects.{plays, plays-append, answer-cases, IsQuiet, arm-IsQuiet}

-- The engine means to play, or the change of state does not ask for it.
abbrev pub Wanted : PlaybackState → Draft → Type 0
Wanted prev d =
    (plays (transition_effects prev d.next_snapshot.playback_state) ≡ 0)
    ⊎ (d.engine.recovery.desired_play_when_ready ≡ true)

begin-Wanted :
    (c : EngineCommandType) (now : ℕ) (e : Engine)
    → c ≢ EngineCommandType.skip_previous
    → Wanted e.snapshot.playback_state (begin c now e)
unfolding begin entering transition_effects next_state_from_command
begin-Wanted EngineCommandType.skip_previous now e h = absurd (h refl)
begin-Wanted c now e h = grind arith

begin-IsQuiet : (c : EngineCommandType) (now : ℕ) (e : Engine) → IsQuiet (begin c now e)
unfolding begin
begin-IsQuiet c now e = refl

begin_still :
    (c : EngineCommandType) (now : ℕ) (e : Engine)
    → (begin c now e).engine.snapshot.playback_state ≡ e.snapshot.playback_state
unfolding begin
begin_still c now e = refl

settle-Wanted :
    (prev : PlaybackState) (d : Draft)
    → IsQuiet d
    → Wanted prev d
    → (plays (settle prev d).1 ≡ 0) ⊎ ((settle prev d).0.recovery.desired_play_when_ready ≡ true)
unfolding settle reasserted refresh_controls
settle-Wanted prev d h w =
    let entered = plays-append d.effects (transition_effects prev d.next_snapshot.playback_state) in
    elim (Bool-cases d.engine.recovery.desired_play_when_ready) [
      | inl means ↦ inr means
      | inr not_meant ↦ grind (arith, not_meant, entered)
    ]

module _ (ports : Ports) (prev : PlaybackState) where
  load_media-Wanted :
      (media : MediaItem) (reassert : Bool) (enter : EngineSnapshot → EngineSnapshot)
      (fail : EngineError → EngineSnapshot → EngineSnapshot) (d : Draft)
      → ((error : EngineError) (s : EngineSnapshot)
          → (fail error s).playback_state ≡ PlaybackState.error)
      → Wanted prev (load_media ports media reassert enter fail d)
  unfolding load_media update_media_state loading resolve_playback_source transition_effects
  load_media-Wanted media reassert enter fail d f =
      elim (answer-cases (resolve_media ports d.engine.prefetched_playback media)) [
        | inl (m, e) ↦ rw (e, load_media, resolve_playback_source) (inr refl)
        | inr (error, e) ↦
            rw (e, load_media, resolve_playback_source)
              (inl (ground (arith, f error d.next_snapshot)))
      ]

  load_shown-Wanted : (media : MediaItem) (d : Draft) → Wanted prev (load_shown ports media d)
  unfolding load_shown
  load_shown-Wanted media d =
      load_media-Wanted media true (with_state PlaybackState.buffering) (failed_media media) d
        (λ error s. refl)

  skip_next-Wanted :
      (desired : Bool) (d : Draft)
      → d.engine.snapshot.playback_state ≡ prev
      → Wanted prev (skip_next ports desired d)
  unfolding skip_next transition_effects
  skip_next-Wanted desired d h = elim (Option-cases (next_item d.engine.queue).1) [
    | inl e ↦ rw (e, skip_next) (inl (ground (arith, h)))
    | inr (m, e) ↦
        rw (e, skip_next)
          (load_media-Wanted m desired (with_state PlaybackState.buffering) failed
            (record d { engine = record d.engine { queue = (next_item d.engine.queue).0 } })
            (λ error s. refl))
  ]

  play-Wanted : (now : ℕ) (d : Draft) → Wanted prev d → Wanted prev (play ports prev now d)
  unfolding play transition_effects
  play-Wanted now d w =
      let d' = record d {
        should_reassert_playback = needs_play prev;
        engine = (select_media d.engine).0;
      } in
      elim (Option-cases (current_item d.engine.queue)) [
        | inl empty ↦ elim (Option-cases (next_item d.engine.queue).1) [
          | inl e ↦ grind (arith, w, empty, e)
          | inr (m, e) ↦
              grind
                (arith, w, empty, e, load_media-Wanted m true (λ s. s) failed d' (λ error s. refl))
        ]
        | inr (m, e) ↦
            grind (arith, w, e, load_media-Wanted m true (λ s. s) failed d' (λ error s. refl))
      ]

  play_media_by_id-Wanted :
      (media_id : String) (d : Draft)
      → Wanted prev d
      → Wanted prev (play_media_by_id ports media_id d)
  unfolding play_media_by_id
  play_media_by_id-Wanted media_id d w =
      elim (Option-cases (media_by_id ports (busy d).next_snapshot media_id)) [
        | inl e ↦ rw (e, play_media_by_id) w
        | inr (m, e) ↦
            rw (e, play_media_by_id)
              (load_shown-Wanted m (record (busy d) {
                engine = record d.engine { queue = set_items d.engine.queue (m ∷ []) };
              }))
      ]

  play_queue-Wanted :
      (media_ids : List String) (start_index : ℕ) (d : Draft)
      → Wanted prev d
      → Wanted prev (play_queue ports media_ids start_index d)
  unfolding play_queue
  play_queue-Wanted media_ids start_index d w =
      let items = map (queue_media ports (busy d).next_snapshot) media_ids in
      let q = set_current_index (set_items d.engine.queue items) start_index in
      elim (Option-cases (current_item q)) [
        | inl e ↦ rw (e, play_queue) w
        | inr (m, e) ↦
            rw (e, play_queue)
              (load_shown-Wanted m (record (busy d) { engine = record d.engine { queue = q } }))
      ]

  voice_play-Wanted :
      (query : String) (found : List MediaItem) (d : Draft)
      → Wanted prev d
      → Wanted prev (voice_play ports query found d)
  unfolding voice_play
  voice_play-Wanted query [] d w = w
  voice_play-Wanted query (m ∷ ms) d w =
      load_media-Wanted m true (with_state PlaybackState.buffering)
        (λ error s. with_state PlaybackState.error (with_error (some error) s)) (busy d)
        (λ error s. refl)

  arm-Wanted :
      (c : EngineCommandType) (desired : Bool) (now : ℕ) (d d' : Draft)
      → c ≢ EngineCommandType.skip_previous
      → d.engine.snapshot.playback_state ≡ prev
      → Wanted prev d
      → arm ports c prev desired now d ≡ some d'
      → Wanted prev d'
  unfolding arm seek set_speed start_session end_session refresh_backend_status hydrate_theme
      set_theme apply_remote_theme with_session
  arm-Wanted EngineCommandType.skip_previous desired now d d' n h w e = absurd (n refl)
  arm-Wanted EngineCommandType.play desired now d d' n h w e = grind (arith, e, play-Wanted now d w)
  arm-Wanted EngineCommandType.skip_next desired now d d' n h w e =
      grind (arith, e, skip_next-Wanted desired d h)
  arm-Wanted (EngineCommandType.voice_play query) desired now d d' n h w e =
      grind (arith, e, voice_play-Wanted query (or_nil (ports.search query)) d w)
  arm-Wanted (EngineCommandType.play_media_by_id media_id) desired now d d' n h w e =
      grind (arith, e, play_media_by_id-Wanted media_id d w)
  arm-Wanted (EngineCommandType.play_queue media_ids start_index) desired now d d' n h w e =
      grind (arith, e, play_queue-Wanted media_ids start_index d w)
  arm-Wanted c desired now d d' n h w e = grind (arith, e, w)

-- A command that `arm` covers, other than a skip back, asks the player to play only if the engine
-- then means to play when ready.
pub reduce-plays :
    (ports : Ports) (c : EngineCommandType) (now : ℕ) (e e' : Engine) (effects : List EngineEffect)
    → c ≢ EngineCommandType.skip_previous
    → reduce ports c now e ≡ some (e', effects)
    → (plays effects ≡ 0) ⊎ (e'.recovery.desired_play_when_ready ≡ true)
unfolding reduce
reduce-plays ports c now e e' effects n r =
    let prev = e.snapshot.playback_state in
    let d₀ = begin c now e in
    elim (Option-cases (arm ports c prev e.recovery.desired_play_when_ready now d₀)) [
      | inl stop ↦ ground (arith, r, stop)
      | inr (d, armed) ↦
          let quiet =
            arm-IsQuiet ports c prev e.recovery.desired_play_when_ready now d₀ d
              (begin-IsQuiet c now e) armed in
          let wanted =
            arm-Wanted ports prev c e.recovery.desired_play_when_ready now d₀ d n
              (begin_still c now e) (begin-Wanted c now e n) armed in
          grind (arith, r, armed, settle-Wanted prev d quiet wanted)
    ]
