-- ===== src/Engine/Reduce/Instances.antt =====
-- engine/core/dispatch_command.rs and effects.rs: the queue's cursor and the playback instance ids
-- through a command.
use media_app.Prelude.{
  ℕ, ◌≤◌, ◌≡◌, Bool, true, Option, none, some, List, [], ◌∷◌, inl, inr, map, arith, Option-cases,
  u64_max, String,
}
use media_app.Model.Command.{EngineCommandType}
use media_app.Model.Effect.{EngineEffect}
use media_app.Model.Error.{EngineError}
use media_app.Model.Media.{MediaItem}
use media_app.Model.Playback.{PlaybackState}
use media_app.Model.Snapshot.{EngineSnapshot, with_error}
use media_app.Queue.{next_item, previous_item, current_item, set_items, set_current_index}
use media_app.Queue.Invariant.{
  IsValid, next_item-IsValid, previous_item-IsValid, set_items-IsValid, set_current_index-IsValid,
}
use media_app.Engine.State.{Engine, Ports, Draft}
use media_app.Engine.Controls.{refresh_controls}
use media_app.Engine.Source.{update_media_state, loading, resolve_playback_source, resolve_media}
use media_app.Engine.Settle.{begin, settle}
use media_app.Engine.Transport.{
  load_media, with_state, failed, needs_play, select_media, skip_next, skip_previous, restart, play,
  seek, set_speed, start_session, end_session, refresh_backend_status,
}
use media_app.Engine.Play.{
  load_shown, busy, queue_media, failed_media, media_by_id, play_media_by_id, play_queue,
  voice_play,
}
use media_app.Engine.Reduce.{or_nil, arm, reduce}
use media_app.Engine.Reduce.Effects.{answer-cases}

-- The current instance is not newer than the last id given out.
abbrev pub IsGiven : Option ℕ → ℕ → Type 0
IsGiven none last = Unit {0}
IsGiven (some id) last = id ≤ last

-- The cursor points into the queue, and the instance ids are in order.
abbrev pub EngineIsValid : Engine → Type 0
EngineIsValid e =
    IsValid e.queue
    × IsGiven e.current_playback_instance_id e.next_playback_instance_id
    × (e.next_playback_instance_id ≤ u64_max)

-- A valid engine that has not taken back an id.
abbrev pub Follows : ℕ → Engine → Type 0
Follows last e = EngineIsValid e × (last ≤ e.next_playback_instance_id)

module _ (ports : Ports) (last : ℕ) where
  load_media-Follows :
      (media : MediaItem) (reassert : Bool) (enter : EngineSnapshot → EngineSnapshot)
      (fail : EngineError → EngineSnapshot → EngineSnapshot) (d : Draft)
      → Follows last d.engine
      → Follows last (load_media ports media reassert enter fail d).engine
  unfolding load_media update_media_state loading resolve_playback_source
  load_media-Follows media reassert enter fail d h =
      elim (answer-cases (resolve_media ports d.engine.prefetched_playback media)) [
        | inl (m, e) ↦ rw (e, load_media, resolve_playback_source) (ground arith)
        | inr (m, e) ↦ rw (e, load_media, resolve_playback_source) h
      ]

  load_shown-Follows :
      (media : MediaItem) (d : Draft)
      → Follows last d.engine
      → Follows last (load_shown ports media d).engine
  unfolding load_shown
  load_shown-Follows media d h =
      load_media-Follows media true (with_state PlaybackState.buffering) (failed_media media) d h

  skip_next-Follows :
      (desired : Bool) (d : Draft)
      → Follows last d.engine
      → Follows last (skip_next ports desired d).engine
  unfolding skip_next
  skip_next-Follows desired d h =
      let e' = record d.engine { queue = (next_item d.engine.queue).0 } in
      let valid = next_item-IsValid d.engine.queue h.0.0 in
      let h' : Follows last e' = ((valid, h.0.1, h.0.2), h.1) in
      elim (Option-cases (next_item d.engine.queue).1) [
        | inl e ↦ rw (e, skip_next) h'
        | inr (m, e) ↦
            rw (e, skip_next)
              (load_media-Follows m desired (with_state PlaybackState.buffering) failed
                (record d { engine = e' }) h')
      ]

  skip_previous-Follows :
      (desired : Bool) (prev : PlaybackState) (now : ℕ) (d : Draft)
      → Follows last d.engine
      → Follows last (skip_previous ports desired prev now d).engine
  unfolding skip_previous restart
  skip_previous-Follows desired prev now d h =
      let e' = record d.engine { queue = (previous_item d.engine.queue).0 } in
      let valid = previous_item-IsValid d.engine.queue h.0.0 in
      let h' : Follows last e' = ((valid, h.0.1, h.0.2), h.1) in
      elim (Option-cases (previous_item d.engine.queue).1) [
        | inl e ↦ ground (arith, e, h, valid)
        | inr (m, e) ↦ ground (
          arith,
          e,
          h,
          load_media-Follows m desired (with_state PlaybackState.buffering) failed
              (record d { engine = e' }) h',
        )
      ]

  select_media-Follows : (e : Engine) → Follows last e → Follows last (select_media e).0
  select_media-Follows e h = elim (Option-cases (current_item e.queue)) [
    | inl o ↦ rw (o, select_media) ((next_item-IsValid e.queue h.0.0, h.0.1, h.0.2), h.1)
    | inr (m, o) ↦ rw (o, select_media) h
  ]

  play-Follows :
      (prev : PlaybackState) (now : ℕ) (d : Draft)
      → Follows last d.engine
      → Follows last (play ports prev now d).engine
  unfolding play
  play-Follows prev now d h =
      let d' = record d {
        should_reassert_playback = needs_play prev;
        engine = (select_media d.engine).0;
      } in
      let h' = select_media-Follows d.engine h in
      elim (Option-cases (select_media d.engine).1) [
        | inl e ↦ ground (arith, e, h, h')
        | inr (m, e) ↦ ground (arith, e, h, load_media-Follows m true (λ s. s) failed d' h')
      ]

  play_media_by_id-Follows :
      (media_id : String) (d : Draft)
      → Follows last d.engine
      → Follows last (play_media_by_id ports media_id d).engine
  unfolding play_media_by_id
  play_media_by_id-Follows media_id d h =
      elim (Option-cases (media_by_id ports (busy d).next_snapshot media_id)) [
        | inl e ↦ rw (e, play_media_by_id) h
        | inr (m, e) ↦
            let q = set_items d.engine.queue (m ∷ []) in
            rw (e, play_media_by_id)
              (load_shown-Follows m (record (busy d) { engine = record d.engine { queue = q } })
                ((set_items-IsValid d.engine.queue (m ∷ []), h.0.1, h.0.2), h.1))
      ]

  play_queue-Follows :
      (media_ids : List String) (start_index : ℕ) (d : Draft)
      → Follows last d.engine
      → Follows last (play_queue ports media_ids start_index d).engine
  unfolding play_queue
  play_queue-Follows media_ids start_index d h =
      let items = map (queue_media ports (busy d).next_snapshot) media_ids in
      let q = set_current_index (set_items d.engine.queue items) start_index in
      let valid =
        set_current_index-IsValid (set_items d.engine.queue items) start_index
          (set_items-IsValid d.engine.queue items) in
      let h' : Follows last (record d.engine { queue = q }) = ((valid, h.0.1, h.0.2), h.1) in
      elim (Option-cases (current_item q)) [
        | inl e ↦ rw (e, play_queue) h'
        | inr (m, e) ↦
            rw (e, play_queue)
              (load_shown-Follows m (record (busy d) { engine = record d.engine { queue = q } }) h')
      ]

  voice_play-Follows :
      (query : String) (found : List MediaItem) (d : Draft)
      → Follows last d.engine
      → Follows last (voice_play ports query found d).engine
  unfolding voice_play
  voice_play-Follows query [] d h = h
  voice_play-Follows query (m ∷ ms) d h =
      load_media-Follows m true (with_state PlaybackState.buffering)
        (λ error s. with_state PlaybackState.error (with_error (some error) s)) (busy d) h

  arm-Follows :
      (c : EngineCommandType) (prev : PlaybackState) (desired : Bool) (now : ℕ) (d d' : Draft)
      → Follows last d.engine
      → arm ports c prev desired now d ≡ some d'
      → Follows last d'.engine
  unfolding arm seek set_speed start_session end_session refresh_backend_status
  arm-Follows EngineCommandType.play prev desired now d d' h e =
      ground (arith, play-Follows prev now d h)
  arm-Follows EngineCommandType.skip_previous prev desired now d d' h e =
      ground (arith, skip_previous-Follows desired prev now d h)
  arm-Follows EngineCommandType.skip_next prev desired now d d' h e =
      ground (arith, skip_next-Follows desired d h)
  arm-Follows (EngineCommandType.voice_play query) prev desired now d d' h e =
      ground (arith, voice_play-Follows query (or_nil (ports.search query)) d h)
  arm-Follows (EngineCommandType.play_media_by_id media_id) prev desired now d d' h e =
      ground (arith, play_media_by_id-Follows media_id d h)
  arm-Follows (EngineCommandType.play_queue media_ids start_index) prev desired now d d' h e =
      ground (arith, play_queue-Follows media_ids start_index d h)
  arm-Follows c prev desired now d d' h e = ground arith

-- If the cursor of the queue, where there is one, is at an item, the current playback instance is
-- among the ids given out, and the last id is a `u64`, then this holds after a command that `arm`
-- covers too, and the last id has not become smaller.
pub reduce-EngineIsValid :
    (ports : Ports) (c : EngineCommandType) (now : ℕ) (e e' : Engine) (effects : List EngineEffect)
    → EngineIsValid e
    → reduce ports c now e ≡ some (e', effects)
    → EngineIsValid e' × (e.next_playback_instance_id ≤ e'.next_playback_instance_id)
unfolding reduce begin settle refresh_controls
reduce-EngineIsValid ports c now e e' effects v r =
    let prev = e.snapshot.playback_state in
    elim (Option-cases (arm ports c prev e.recovery.desired_play_when_ready now (begin c now e))) [
      | inl stop ↦ ground (arith, stop)
      | inr (d, armed) ↦
          let follows =
            arm-Follows ports e.next_playback_instance_id c prev e.recovery.desired_play_when_ready
              now (begin c now e) d (v, omega arith) armed in
          ground (arith, armed, follows)
    ]
