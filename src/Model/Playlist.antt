-- ===== src/Model/Playlist.antt =====
-- rust/engine/crates/app_core/src/model/playlist.rs: playlists and their tracks.
use media_app.Prelude.{ℕ, String, false, ◌||◌, Option, List, is_blank, if◌then◌else◌}
use media_app.Model.Catalog.{EngineTrack}
use media_app.Model.Error.{EngineResult, ok, err, engine_error, invalid_input}

pub record EnginePlaylistIdentity : Type 0 where
  pub account_id : String
  pub session_id : String

-- `EnginePlaylistIdentity::new`.
unfoldable pub playlist_identity_of : String → String → EngineResult EnginePlaylistIdentity
playlist_identity_of account_id session_id =
    if is_blank account_id || is_blank session_id
    then err (
        engine_error invalid_input "playlist identity requires account and current session ids"
          false)
    else ok (record { account_id = account_id; session_id = session_id })

pub record EnginePlaylist : Type 0 where
  pub id : String
  pub name : String
  pub description : Option String
  pub revision : ℕ
  pub created_at_epoch_millis : ℕ
  pub updated_at_epoch_millis : ℕ

pub record EngineCreatePlaylist : Type 0 where
  pub name : String
  pub description : Option String

pub record EngineUpdatePlaylist : Type 0 where
  pub id : String
  pub name : String
  pub description : Option String
  pub expected_revision : ℕ

pub record EnginePlaylistTrack : Type 0 where
  pub membership_id : String
  pub playlist_id : String
  pub track : EngineTrack
  pub position : ℕ
  pub added_at_epoch_millis : ℕ

pub record PlaylistReconciliation : Type 0 where
  pub playlist_id : String
  pub expected_revision : ℕ
  pub server_revision : ℕ
  pub server_membership_ids : List String
  pub proposed_membership_ids : List String
