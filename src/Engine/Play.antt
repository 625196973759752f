-- ===== src/Engine/Play.antt =====
-- rust/engine/crates/app_core/src/engine/core/dispatch_command.rs and core.rs: the arms of the
-- commands that choose what is played.
use media_app.Prelude.{
  ℕ, String, text_append, true, false, Option, none, some, List, [], ◌∷◌, ◌++◌, find, map, str_eq,
  if◌then◌else◌,
}
use media_app.Model.Catalog.{EngineArtwork, EngineTrack}
use media_app.Model.Effect.{EngineEffect}
use media_app.Model.Error.{EngineError}
use media_app.Model.Media.{MediaItem, track}
use media_app.Model.Playback.{PlaybackState}
use media_app.Model.Snapshot.{EngineSnapshot, with_media, with_error, with_busy}
use media_app.Queue.{set_items, set_current_index, current_item}
use media_app.Engine.State.{Ports, Draft}
use media_app.Engine.Source.{or_option}
use media_app.Engine.Transport.{with_state, push, with_next, load_media}

-- `MediaItem { id, ..Default::default() }`.
abbrev pub bare_media : String → MediaItem
bare_media id = record {
  id = id;
  title = "";
  artist = "";
  album = none;
  duration_millis = none;
  thumbnail_url = none;
  artwork_id = none;
  artwork_content_hash = none;
  source_uri = none;
  mime_type = none;
  item_type = track;
  parent_id = none;
}

abbrev map_option : {A B : Type 0} → (A → B) → Option A → Option B
map_option f none = none
map_option f (some a) = some (f a)

-- `Some(value).filter(|value| !value.is_empty())`.
abbrev nonempty : String → Option String
nonempty value = if str_eq value "" then none else some value

-- `project_artwork_identity`: the id, the content hash and the address of an artwork.
unfoldable pub project_artwork_identity :
    Option EngineArtwork → Option String × (Option String × Option String)
project_artwork_identity none = (none, (none, none))
project_artwork_identity (some artwork) =
    (nonempty artwork.id, (nonempty artwork.content_hash, artwork.uri))

unfoldable pub project_discovery_track : EngineTrack → MediaItem
unfolding project_artwork_identity
project_discovery_track t =
    let (artwork_id, (content_hash, uri)) = project_artwork_identity t.artwork in
    record (bare_media t.id) {
      title = t.title;
      artist = t.artist.name;
      album = map_option (λ album. album.title) t.album;
      duration_millis = some t.duration_millis;
      thumbnail_url = uri;
      artwork_id = artwork_id;
      artwork_content_hash = content_hash;
    }

unfoldable pub discovery_track_by_id : EngineSnapshot → String → Option MediaItem
discovery_track_by_id s media_id =
    find (λ media. str_eq media.id media_id)
      (s.for_you_results ++ (s.recommendations_results ++ s.discovery_results))

-- The item that `PlayMediaById` plays.
unfoldable pub media_by_id : Ports → EngineSnapshot → String → Option MediaItem
media_by_id ports s media_id =
    or_option (ports.get_by_id media_id) (discovery_track_by_id s media_id)

-- The item that `PlayQueue` puts into the queue for an id.
unfoldable pub queue_media : Ports → EngineSnapshot → String → MediaItem
unfolding media_by_id
queue_media ports s media_id = elim (media_by_id ports s media_id) [
  | some media ↦ media
  | none ↦ elim (find (λ item. str_eq item.track.id media_id) s.playlist_tracks) [
    | some item ↦ project_discovery_track item.track
    | none ↦ bare_media media_id
  ]
]

-- What the snapshot shows of an item whose source was not resolved.
abbrev pub failed_media : MediaItem → EngineError → EngineSnapshot → EngineSnapshot
failed_media media error s =
    with_state PlaybackState.error
      (with_error (some error) (with_media (record media { source_uri = none }) s))

abbrev pub not_busy : Draft → Draft
not_busy d = with_next (with_busy false d.next_snapshot) d

abbrev pub busy : Draft → Draft
busy d = with_next (with_busy true d.next_snapshot) d

-- An item is loaded, or its failure shown.
unfoldable pub load_shown : Ports → MediaItem → Draft → Draft
unfolding load_media
load_shown ports media d =
    load_media ports media true (with_state PlaybackState.buffering) (failed_media media) d

-- The arm of `PlayMediaById`.
unfoldable pub play_media_by_id : Ports → String → Draft → Draft
unfolding load_shown
play_media_by_id ports media_id d =
    let d' = busy d in
    elim (media_by_id ports d'.next_snapshot media_id) [
      | some media ↦ not_busy (
          load_shown ports media (record d' {
            engine = record d.engine { queue = set_items d.engine.queue (media ∷ []) };
          }))
      | none ↦ not_busy d'
    ]

-- The arm of `PlayQueue`.
unfoldable pub play_queue : Ports → List String → ℕ → Draft → Draft
unfolding load_shown
play_queue ports media_ids start_index d =
    let d' = busy d in
    let items = map (queue_media ports d'.next_snapshot) media_ids in
    let q = set_current_index (set_items d.engine.queue items) start_index in
    let queued = record d' { engine = record d.engine { queue = q } } in
    elim (current_item q) [
      | some media ↦ not_busy (load_shown ports media queued)
      | none ↦ not_busy queued
    ]

-- The arm of `VoicePlay`, given the answer of `search(query).unwrap_or_default()`.
unfoldable pub voice_play : Ports → String → List MediaItem → Draft → Draft
unfolding load_media
voice_play ports query [] d =
    not_busy (push (EngineEffect.notify_user (text_append "No results found for " query)) (busy d))
voice_play ports query (media ∷ _) d = not_busy (
    load_media ports media true (with_state PlaybackState.buffering)
      (λ error s. with_state PlaybackState.error (with_error (some error) s)) (busy d))
