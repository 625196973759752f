-- ===== src/History.antt =====
-- rust/engine/crates/app_core/src/engine/core/history.rs and engine/core.rs: how long the current track
-- was listened to, and what the history shows and buffers of it. The state is what these methods read and
-- change of the engine and of the draft snapshot, without the refresh state and the fields of pages.
pub mod Service
pub mod Record
use media_app.Prelude.{
  ℕ, String, text_append, Bool, true, false, not, ◌&&◌, ◌||◌, Option, none, some, List, [], ◌∷◌,
  max, is_blank, is_some, leb, ltb, opt_eq, str_eq, decimal, saturating_add, saturating_sub, length,
  if◌then◌else◌, ◌==◌, zero, suc,
}
use media_app.Model.Auth.{AuthState}
use media_app.Model.Catalog.{EngineAlbum, EngineArtist, EngineArtwork, EngineTrack}
use media_app.Model.Effect.{F32}
use media_app.Model.Error.{EngineError, EngineResult, ok, err}
use media_app.Model.History.{
  EngineHistoryEntry, EngineHistorySettings, EnginePlaybackRecord, playback_record,
}
use media_app.Model.Page.{EnginePageToken}
use media_app.Model.Playback.{PlaybackState, same_state}
use media_app.Model.Snapshot.{EngineSnapshot}
use media_app.Library.{AuthIdentity, from_state, is_identity}

pub record AnonymousHistoryBuffer : Type 0 where
  pub buffered : List EngineHistoryEntry
  pub max_entries : ℕ
  pub enabled : Bool
  pub next_sequence : ℕ

pub record HistoryListenTracker : Type 0 where
  pub playback_instance_id : Option ℕ
  pub accumulated_playing_millis : ℕ
  pub playing_since_epoch_millis : Option ℕ
  pub recorded_instance_id : Option ℕ

pub data EngineHistoryAvailability : Type 0 where
  unknown available login_required unavailable : EngineHistoryAvailability

pub data HistoryProjectionOwner : Type 0 where
  anonymous : HistoryProjectionOwner
  authenticated : AuthIdentity → HistoryProjectionOwner

-- The fields of the history beside the snapshot of playback; `requests` is how often the history
-- service was asked.
pub record HistoryState : Type 0 where
  pub snapshot : EngineSnapshot
  pub history_settings : Option EngineHistorySettings
  pub history_generation : ℕ
  pub history_availability : EngineHistoryAvailability
  pub history_entries : List EngineHistoryEntry
  pub anonymous_history : AnonymousHistoryBuffer
  pub history_listen : HistoryListenTracker
  pub history_projection_owner : Option HistoryProjectionOwner
  pub reconciliation_in_flight : Bool
  pub next_history_record_sequence : ℕ
  pub requests : ℕ
  pub current_playback_instance_id : Option ℕ

-- `HistoryListenTracker::default()`.
abbrev pub default_tracker : HistoryListenTracker
default_tracker = record {
  playback_instance_id = none;
  accumulated_playing_millis = 0;
  playing_since_epoch_millis = none;
  recorded_instance_id = none;
}

-- `AnonymousHistoryBuffer::default()`.
abbrev pub default_buffer : AnonymousHistoryBuffer
default_buffer = record { buffered = []; max_entries = 50; enabled = true; next_sequence = 0 }

abbrev pub history_auto_record_threshold_millis : ℕ
history_auto_record_threshold_millis = 5000

abbrev pub max_history_page_size : ℕ
max_history_page_size = 50

unfoldable pub bounded_history_page_size : ℕ → ℕ
bounded_history_page_size page_size =
    if page_size == 0
    then 40
    else (if ltb max_history_page_size page_size then max_history_page_size else page_size)

-- `elapsed_millis`.
unfoldable pub elapsed_millis : HistoryListenTracker → ℕ → ℕ
elapsed_millis t now = elim t.playing_since_epoch_millis [
  | none ↦ saturating_add t.accumulated_playing_millis 0
  | some started ↦ saturating_add t.accumulated_playing_millis (saturating_sub now started)
]

-- The tracker of the current instance.
unfoldable pub tracker_of : Option ℕ → HistoryListenTracker → HistoryListenTracker
tracker_of instance t =
    if opt_eq t.playback_instance_id instance
    then t
    else record default_tracker { playback_instance_id = instance }

-- The clock of a tracker, while playing and otherwise.
unfoldable pub clocked : Bool → ℕ → HistoryListenTracker → HistoryListenTracker
clocked true now t = elim t.playing_since_epoch_millis [
  | none ↦ record t { playing_since_epoch_millis = some now }
  | some started ↦ t
]
clocked false now t = elim t.playing_since_epoch_millis [
  | none ↦ t
  | some started ↦ record t {
    playing_since_epoch_millis = none;
    accumulated_playing_millis =
        saturating_add t.accumulated_playing_millis (saturating_sub now started);
  }
]

unfoldable pub sync_history_listen_tracker : ℕ → PlaybackState → HistoryState → HistoryState
unfolding tracker_of clocked
sync_history_listen_tracker now state s = record s {
  history_listen =
      clocked (same_state state PlaybackState.playing) now
        (tracker_of s.current_playback_instance_id s.history_listen);
}

-- `filter(|value| !value.trim().is_empty())` and `unwrap_or`.
abbrev text_or : Option String → String → String
text_or none fallback = fallback
text_or (some text) fallback = if is_blank text then fallback else text

abbrev number_or : Option ℕ → ℕ → ℕ
number_or none fallback = fallback
number_or (some n) fallback = n

-- The artwork, where both its identifier and its hash are known and not empty.
unfoldable pub history_artwork : EngineSnapshot → Option EngineArtwork
history_artwork s = elim s.artwork_id [
  | none ↦ none
  | some id ↦ elim s.artwork_content_hash [
    | none ↦ none
    | some hash ↦
        if str_eq id "" || str_eq hash ""
        then none
        else some (record { id = id; content_hash = hash; uri = s.thumbnail_url })
  ]
]

abbrev album_of : Option String → Option EngineAlbum
album_of none = none
album_of (some title) = some (record { id = title; title = title })

unfoldable pub history_track_from_snapshot : EnginePlaybackRecord → EngineSnapshot → EngineTrack
unfolding history_artwork
history_track_from_snapshot listen s =
    let artist_name = text_or s.artist "Unknown artist" in
    record {
      id = listen.track_id;
      title = text_or s.title listen.track_id;
      artist = record { id = artist_name; name = artist_name };
      album = album_of s.album;
      duration_millis = number_or s.duration_millis listen.duration_millis;
      explicit = false;
      artwork = history_artwork s;
      genres = [];
    }

unfoldable pub without_entry : String → List EngineHistoryEntry → List EngineHistoryEntry
without_entry id [] = []
without_entry id (x ∷ xs) =
    let kept = without_entry id xs in if str_eq x.id id then kept else x ∷ kept

-- `while entries.len() > limit { pop }`, from the end.
unfoldable pub truncated : ℕ → List EngineHistoryEntry → List EngineHistoryEntry
truncated limit [] = []
truncated zero (x ∷ xs) = []
truncated (suc limit) (x ∷ xs) = x ∷ truncated limit xs

abbrev pub clear_history_projection : HistoryState → HistoryState
clear_history_projection s = record s {
  history_settings = none;
  history_generation = saturating_add s.history_generation 1;
  history_availability = unknown;
  history_entries = [];
}

-- `HistoryProjectionOwner::matches_auth_state`, on what `AuthIdentity::from_state` gives.
unfoldable pub matches_identity : HistoryProjectionOwner → Option AuthIdentity → Bool
matches_identity anonymous current = not (is_some current)
matches_identity (authenticated expected) current = is_identity current expected

-- What `sync_auth_state_projection` does with the history, for the state of the provider.
unfoldable pub sync_history : AuthState → HistoryState → HistoryState
unfolding matches_identity from_state
sync_history auth s =
    let seen = record s { snapshot = record s.snapshot { auth_state = auth } } in
    elim s.history_projection_owner [
      | none ↦ seen
      | some owner ↦
          if matches_identity owner (from_state auth)
          then seen
          else record (clear_history_projection seen) { history_projection_owner = none }
    ]
