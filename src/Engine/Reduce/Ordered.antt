-- ===== src/Engine/Reduce/Ordered.antt =====
-- engine/core/dispatch_command.rs: the queue that `PlayQueue` builds.
use media_app.Prelude.{
  ℕ, ◌≡◌, refl, Bool, true, Option, none, some, List, [], ◌∷◌, ◌++◌, inl, inr, map, arith, ap, ◌∙◌,
  sym, ◌==◌, Bool-cases, Option-cases, String, find, str_eq, eq_iff, length, ltb, if◌then◌else◌,
}
use media_app.Model.Command.{EngineCommandType}
use media_app.Model.Effect.{EngineEffect}
use media_app.Model.Media.{MediaItem}
use media_app.Model.Snapshot.{EngineSnapshot}
use media_app.Queue.{QueueManager, is_nil, current_item, set_items, set_current_index}
use media_app.Engine.State.{Engine, Ports, Draft}
use media_app.Engine.Controls.{refresh_controls}
use media_app.Engine.Source.{resolve_playback_source, resolve_media, update_media_state, loading}
use media_app.Engine.Settle.{begin, settle}
use media_app.Engine.Transport.{load_media}
use media_app.Engine.Play.{
  busy, queue_media, media_by_id, discovery_track_by_id, project_discovery_track, load_shown,
  play_queue,
}
use media_app.Engine.Reduce.{arm, reduce}
use media_app.Engine.Reduce.Effects.{answer-cases}

find_holds : {A : Type 0} (p : A → Bool) (xs : List A) {x : A} → find p xs ≡ some x → p x ≡ true
find_holds p [] h = ground (arith, h)
find_holds p (y ∷ ys) h = elim (Bool-cases (p y)) [
  | inl e ↦ ground (arith, h, e)
  | inr e ↦ find_holds p ys (ground (arith, h, e))
]

module _ (ports : Ports)
    (honest : (id : String) (m : MediaItem) → ports.get_by_id id ≡ some m → m.id ≡ id) where
  -- An item that is put into the queue for an id has this id.
  id-queue_media : (s : EngineSnapshot) (id : String) → (queue_media ports s id).id ≡ id
  unfolding queue_media media_by_id discovery_track_by_id project_discovery_track
  id-queue_media s id =
      let found = s.for_you_results ++ (s.recommendations_results ++ s.discovery_results) in
      elim (Option-cases (ports.get_by_id id)) [
        | inr (m, known) ↦ rw (known, queue_media, media_by_id) (honest id m known)
        | inl unknown ↦ elim (Option-cases (find (λ m. str_eq m.id id) found)) [
          | inr (m, shown) ↦
              rw (unknown, shown, queue_media, media_by_id, discovery_track_by_id)
                ((eq_iff m.id id).0 (find_holds (λ m. str_eq m.id id) found shown))
          | inl hidden ↦ elim (Option-cases (find (λ t. str_eq t.track.id id) s.playlist_tracks)) [
            | inr (t, listed) ↦
                rw
                  (
                    unknown, hidden, listed, queue_media, media_by_id, discovery_track_by_id,
                    project_discovery_track,
                  )
                  ((eq_iff t.track.id id).0
                    (find_holds (λ t. str_eq t.track.id id) s.playlist_tracks listed))
            | inl bare ↦
                rw (unknown, hidden, bare, queue_media, media_by_id, discovery_track_by_id) refl
          ]
        ]
      ]

  ids-queue_media :
      (s : EngineSnapshot) (ids : List String)
      → map (λ m. m.id) (map (queue_media ports s) ids) ≡ ids
  ids-queue_media s [] = refl
  ids-queue_media s (id ∷ ids) =
      ap (λ i. i ∷ map (λ m. m.id) (map (queue_media ports s) ids)) (id-queue_media s id)
      ∙ ap (λ l. id ∷ l) (ids-queue_media s ids)

load_shown_queue :
    (ports : Ports) (media : MediaItem) (d : Draft)
    → (load_shown ports media d).engine.queue ≡ d.engine.queue
unfolding load_shown load_media resolve_playback_source update_media_state loading
load_shown_queue ports media d =
    elim (answer-cases (resolve_media ports d.engine.prefetched_playback media)) [
      | inl (m, e) ↦ rw (e, load_shown, load_media, resolve_playback_source) refl
      | inr (m, e) ↦ rw (e, load_shown, load_media, resolve_playback_source) refl
    ]

-- The queue after the arm of `PlayQueue`.
abbrev queued : Ports → List String → ℕ → Draft → QueueManager
queued ports media_ids start_index d =
    set_current_index
      (set_items d.engine.queue (map (queue_media ports (busy d).next_snapshot) media_ids))
      start_index

play_queue_queue :
    (ports : Ports) (media_ids : List String) (start_index : ℕ) (d : Draft)
    → (play_queue ports media_ids start_index d).engine.queue ≡ queued ports media_ids start_index d
unfolding play_queue
play_queue_queue ports media_ids start_index d =
    let q = queued ports media_ids start_index d in
    elim (Option-cases (current_item q)) [
      | inl e ↦ rw (e, play_queue) refl
      | inr (m, e) ↦
          rw (e, play_queue)
            (load_shown_queue ports m (record (busy d) { engine = record d.engine { queue = q } }))
    ]

length-map : {A B : Type 0} (f : A → B) (xs : List A) → length (map f xs) ≡ length xs
length-map f [] = refl
length-map f (x ∷ xs) = omega (arith, length-map f xs)

is_nil-map : (f : String → MediaItem) (ids : List String) → is_nil (map f ids) ≡ (length ids == 0)
is_nil-map f [] = refl
is_nil-map f (x ∷ xs) = ground arith

-- Where playback of a queue starts: at the given index, or at the first item if it is out of range.
abbrev pub start_of : ℕ → ℕ → Option ℕ
start_of start_index len =
    if ltb start_index len then some start_index else (if len == 0 then none else some 0)

queued_start :
    (ports : Ports) (media_ids : List String) (start_index : ℕ) (d : Draft)
    → (queued ports media_ids start_index d).current_index ≡ start_of start_index (length media_ids)
unfolding set_current_index set_items
queued_start ports media_ids start_index d =
    let f = queue_media ports (busy d).next_snapshot in
    ground (arith, length-map f media_ids, is_nil-map f media_ids)

queued_items :
    (ports : Ports) (media_ids : List String) (start_index : ℕ) (d : Draft)
    → (queued ports media_ids start_index d).items
      ≡ map (queue_media ports (busy d).next_snapshot) media_ids
unfolding set_current_index set_items
queued_items ports media_ids start_index d = ground arith

-- If the repository answers for an id with an item of that id, a command to play a queue makes the
-- queue of exactly the given ids in their order, and puts its cursor at the given index, or at the
-- first item if the index is out of range.
pub play_queue_ordered :
    (ports : Ports) (media_ids : List String) (start_index now : ℕ) (e e' : Engine)
    (effects : List EngineEffect)
    → ((id : String) (m : MediaItem) → ports.get_by_id id ≡ some m → m.id ≡ id)
    → reduce ports (EngineCommandType.play_queue media_ids start_index) now e ≡ some (e', effects)
    → (map (λ m. m.id) e'.queue.items ≡ media_ids)
      × (e'.queue.current_index ≡ start_of start_index (length media_ids))
unfolding reduce arm settle refresh_controls
play_queue_ordered ports media_ids start_index now e e' effects honest r =
    let d = begin (EngineCommandType.play_queue media_ids start_index) now e in
    let same : (play_queue ports media_ids start_index d).engine.queue ≡ e'.queue =
      ground (arith, r) in
    let built : e'.queue ≡ queued ports media_ids start_index d =
      sym same ∙ play_queue_queue ports media_ids start_index d in
    (
      ap (λ q. map (λ m. m.id) q.items) built
          ∙ ap (map (λ m. m.id)) (queued_items ports media_ids start_index d)
          ∙ ids-queue_media ports honest (busy d).next_snapshot media_ids,
      ap (λ q. q.current_index) built ∙ queued_start ports media_ids start_index d,
    )
