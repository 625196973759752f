-- ===== src/Model/Media.antt =====
-- rust/engine/crates/app_core/src/data/repository/types.rs and model/playback.rs: a media item,
-- and a resolved playback source.
use media_app.Prelude.{ℕ, String, Option}

pub data MediaItemType : Type 0 where
  track artist album folder playlist radio_station : MediaItemType

pub record MediaItem : Type 0 where
  pub id : String
  pub title : String
  pub artist : String
  pub album : Option String
  pub duration_millis : Option ℕ
  pub thumbnail_url : Option String
  pub artwork_id : Option String
  pub artwork_content_hash : Option String
  pub source_uri : Option String
  pub mime_type : Option String
  pub item_type : MediaItemType
  pub parent_id : Option String

pub record EnginePlaybackSource : Type 0 where
  pub track_id : String
  pub url : String
  pub content_type : String
  pub codec : String
  pub duration_millis : ℕ
  pub expires_at_epoch_millis : ℕ
