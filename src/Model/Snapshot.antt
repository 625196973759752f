-- ===== src/Model/Snapshot.antt =====
-- rust/engine/crates/app_core/src/model/snapshot.rs: `EngineSnapshot` and its functional updates.
-- Left out are the fields that no operation modelled here reads or writes: those of the account, the
-- profile, the history, the library and the playlist lists, `user_id`, `voice_hypothesis` and the
-- page tokens.
use media_app.Prelude.{
  ℕ, min, String, Bool, not, ◌||◌, Option, none, some, List, opt_eq, opt_str_eq, saturating_add,
  saturating_sub, elapsed_at_speed, if◌then◌else◌,
}
use media_app.Model.Auth.{AuthState, MediaSession, same_session}
use media_app.Model.Backend.{BackendAvailability, EngineBackendStatus}
use media_app.Model.Effect.{F32}
use media_app.Model.Error.{EngineError}
use media_app.Model.Media.{MediaItem}
use media_app.Model.Playback.{DrivingState, PlaybackState, PlayerControls, RestrictionState}
use media_app.Model.Playlist.{EnginePlaylistTrack}
use media_app.Model.Preferences.{ThemePreferenceState}

pub record EngineSnapshot : Type 0 where
  pub auth_state : AuthState
  pub playback_state : PlaybackState
  pub last_error : Option EngineError
  pub backend_status : Option EngineBackendStatus
  pub backend_availability : BackendAvailability
  pub media_id : Option String
  pub title : Option String
  pub artist : Option String
  pub album : Option String
  pub duration_millis : Option ℕ
  pub thumbnail_url : Option String
  pub artwork_id : Option String
  pub artwork_content_hash : Option String
  pub source_uri : Option String
  pub mime_type : Option String
  pub playback_expires_at_epoch_millis : Option ℕ
  pub theme_preference : ThemePreferenceState
  pub playlist_tracks : List EnginePlaylistTrack
  pub restriction_state : RestrictionState
  pub driving_state : DrivingState
  pub updated_at_epoch_millis : ℕ
  pub last_progress_tick_epoch_millis : ℕ
  pub metadata_revision : ℕ
  pub session : Option MediaSession
  pub discovery_results : List MediaItem
  pub for_you_results : List MediaItem
  pub recommendations_results : List MediaItem
  pub playback_speed : F32
  pub position_millis : ℕ
  pub is_busy : Bool
  pub controls : PlayerControls
  pub queue_size : ℕ
  pub queue_current_index : Option ℕ
  pub queue_generation : ℕ

unfoldable pub can_dispatch : EngineSnapshot → Bool
can_dispatch s = not s.is_busy

abbrev pub with_playback_state : PlaybackState → ℕ → EngineSnapshot → EngineSnapshot
with_playback_state playback_state now s = record s {
  playback_state = playback_state;
  updated_at_epoch_millis = now;
}

-- `metadata_revision` advances by one, saturating, if the metadata changed.
abbrev pub revised : Bool → ℕ → ℕ
revised changed revision = if changed then saturating_add revision 1 else revision

unfoldable pub with_session : Option MediaSession → EngineSnapshot → EngineSnapshot
with_session session s = record s {
  metadata_revision = revised (not (same_session s.session session)) s.metadata_revision;
  session = session;
}

abbrev pub with_error : Option EngineError → EngineSnapshot → EngineSnapshot
with_error error s = record s { last_error = error }

abbrev pub with_backend_status : Option EngineBackendStatus → EngineSnapshot → EngineSnapshot
with_backend_status status s = record s { backend_status = status }

abbrev pub with_backend_availability : BackendAvailability → EngineSnapshot → EngineSnapshot
with_backend_availability availability s = record s { backend_availability = availability }

unfoldable pub with_playback_expiry : Option ℕ → EngineSnapshot → EngineSnapshot
with_playback_expiry expires_at s = record s {
  metadata_revision =
      revised (not (opt_eq s.playback_expires_at_epoch_millis expires_at)) s.metadata_revision;
  playback_expires_at_epoch_millis = expires_at;
}

-- The condition of `with_media`.
unfoldable pub metadata_changed : MediaItem → EngineSnapshot → Bool
metadata_changed media s =
    not (opt_str_eq s.media_id (some media.id))
    || (not (opt_str_eq s.title (some media.title))
        || (not (opt_str_eq s.artist (some media.artist))
            || (not (opt_str_eq s.album media.album)
                || (not (opt_eq s.duration_millis media.duration_millis)
                    || (not (opt_str_eq s.thumbnail_url media.thumbnail_url)
                        || (not (opt_str_eq s.artwork_id media.artwork_id)
                            || (not (opt_str_eq s.artwork_content_hash media.artwork_content_hash)
                                || (not (opt_str_eq s.source_uri media.source_uri)
                                    || not (opt_str_eq s.mime_type media.mime_type)))))))))

unfoldable pub with_media : MediaItem → EngineSnapshot → EngineSnapshot
with_media media s = record s {
  metadata_revision = revised (metadata_changed media s) s.metadata_revision;
  media_id = some media.id;
  title = some media.title;
  artist = some media.artist;
  album = media.album;
  duration_millis = media.duration_millis;
  thumbnail_url = media.thumbnail_url;
  artwork_id = media.artwork_id;
  artwork_content_hash = media.artwork_content_hash;
  source_uri = media.source_uri;
  mime_type = media.mime_type;
}

abbrev pub with_speed : F32 → EngineSnapshot → EngineSnapshot
with_speed speed s = record s { playback_speed = speed }

abbrev pub with_position : ℕ → EngineSnapshot → EngineSnapshot
with_position position_millis s = record s { position_millis = position_millis }

abbrev pub with_duration : Option ℕ → EngineSnapshot → EngineSnapshot
with_duration duration_millis s = record s { duration_millis = duration_millis }

abbrev pub with_progress_tick : ℕ → EngineSnapshot → EngineSnapshot
with_progress_tick epoch_millis s = record s { last_progress_tick_epoch_millis = epoch_millis }

-- A position, cut at the duration if it is known.
abbrev pub clamped : Option ℕ → ℕ → ℕ
clamped none position = position
clamped (some duration) position = min position duration

unfoldable pub with_position_rebased_at : ℕ → EngineSnapshot → EngineSnapshot
with_position_rebased_at now s =
    let elapsed_millis = saturating_sub now s.last_progress_tick_epoch_millis in
    let elapsed_position_millis = elapsed_at_speed elapsed_millis s.playback_speed in
    record s {
      position_millis =
          clamped s.duration_millis (saturating_add s.position_millis elapsed_position_millis);
      last_progress_tick_epoch_millis = now;
    }

abbrev pub with_busy : Bool → EngineSnapshot → EngineSnapshot
with_busy is_busy s = record s { is_busy = is_busy }
