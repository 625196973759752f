-- ===== src/Tests/Commands.antt =====
-- Tests of the engine's commands.
use media_app.Prelude.{
  eq_iff, map, ℕ, ◌≤◌, ◌≡◌, ◌⊎◌, refl, true, false, none, some, List, [], ◌∷◌, String, arith,
  saturating_add,
}
use media_app.Model.Command.{EngineCommandType}
use media_app.Model.Effect.{EngineEffect, prepare_playback_source, update_metadata}
use media_app.Model.Media.{MediaItem}
use media_app.Model.Playback.{PlaybackState}
use media_app.Queue.{current_item, has_next}
use media_app.Engine.State.{Engine}
use media_app.Engine.Controls.{refresh_controls}
use media_app.Engine.Source.{with_source, resolve_media}
use media_app.Engine.Settle.{begin, settle, with_reachability}
use media_app.Engine.Transport.{skip_next}
use media_app.Engine.Reduce.{arm, reduce}
use media_app.Engine.Reduce.Ordered.{start_of, play_queue_ordered}
use media_app.Engine.Reduce.Intent.{reduce-plays}
use media_app.Engine.Play.{play_queue}
use media_app.Engine.Reduce.Effects.{plays, reduce-plays_once}
use media_app.Engine.Reduce.Instances.{EngineIsValid, reduce-EngineIsValid}
use media_app.Engine.Reduce.Outcomes.{skip_next_boundary, play_media_by_id_loads}
use media_app.Tests.Fixtures.{playing_engine, last_engine, ports, noon, noon_source}

-- What a press of next leaves, and asks for, where "dawn" plays.
abbrev pressed : Engine × List EngineEffect
unfolding begin settle skip_next
pressed =
    settle PlaybackState.playing
      (skip_next ports true (begin EngineCommandType.skip_next 2000 playing_engine))

reduce-plays_once_example : plays pressed.1 ≤ 1
unfolding reduce arm settle pressed refresh_controls skip_next
reduce-plays_once_example =
    reduce-plays_once ports EngineCommandType.skip_next 2000 playing_engine pressed.0 pressed.1 refl

reduce-EngineIsValid_example :
    EngineIsValid pressed.0
    × (playing_engine.next_playback_instance_id ≤ pressed.0.next_playback_instance_id)
unfolding reduce arm settle pressed refresh_controls skip_next
reduce-EngineIsValid_example =
    reduce-EngineIsValid ports EngineCommandType.skip_next 2000 playing_engine pressed.0 pressed.1
      (omega arith, omega arith, omega arith) refl

skip_next_boundary_example :
    reduce ports EngineCommandType.skip_next 2000 last_engine
    ≡ some (
      refresh_controls (record last_engine { snapshot = with_reachability last_engine.snapshot }),
      [],
    )
unfolding has_next
skip_next_boundary_example = skip_next_boundary ports 2000 last_engine (omega arith) refl

abbrev ana : String
ana = "ana"

play_media_by_id_loads_example :
    (e' : Engine) × (start : ℕ) × (reduce ports
        (EngineCommandType.play_media_by_id "noon")
        2000
        playing_engine
      ≡ some (
        e',
        prepare_playback_source noon.id (saturating_add 7 1) start
            ∷ update_metadata noon.id noon.title noon.artist
            ∷ EngineEffect.play
            ∷ [],
      ))
    × (e'.queue.items ≡ noon ∷ [])
    × (current_item e'.queue ≡ some noon)
    × (e'.current_playback_instance_id ≡ some (saturating_add 7 1))
    × (e'.snapshot.playback_state ≡ PlaybackState.buffering)
    × (e'.snapshot.media_id ≡ some noon.id)
    × (e'.snapshot.last_error ≡ none)
    × (e'.snapshot.is_busy ≡ false)
    × (e'.recovery.desired_play_when_ready ≡ true)
unfolding resolve_media
play_media_by_id_loads_example =
    play_media_by_id_loads ports "noon" 2000 playing_engine noon (with_source noon noon_source) refl
      refl

-- A queue of two ids, of which the repository knows one; the index is out of range.
abbrev queued : Engine × List EngineEffect
unfolding begin settle play_queue
queued = settle PlaybackState.playing (
    play_queue ports ("dusk" ∷ "noon" ∷ []) 5
      (begin (EngineCommandType.play_queue ("dusk" ∷ "noon" ∷ []) 5) 2000 playing_engine))

known_by_id : (id : String) (m : MediaItem) → ports.get_by_id id ≡ some m → m.id ≡ id
known_by_id id m h = ground (arith, h, eq_iff id "noon")

play_queue_ordered_example :
    (map (λ m. m.id) queued.0.queue.items ≡ "dusk" ∷ "noon" ∷ [])
    × (queued.0.queue.current_index ≡ start_of 5 2)
unfolding reduce arm settle queued refresh_controls play_queue
play_queue_ordered_example =
    play_queue_ordered ports ("dusk" ∷ "noon" ∷ []) 5 2000 playing_engine queued.0 queued.1
      known_by_id refl

reduce-plays_example : (plays pressed.1 ≡ 0) ⊎ (pressed.0.recovery.desired_play_when_ready ≡ true)
unfolding reduce arm settle pressed refresh_controls skip_next
reduce-plays_example =
    reduce-plays ports EngineCommandType.skip_next 2000 playing_engine pressed.0 pressed.1
      (λ h. ground (arith, h)) refl
