-- ===== src/Model/Catalog.antt =====
-- rust/engine/crates/app_core/src/model/catalog.rs: backend-neutral catalog tracks.
use media_app.Prelude.{ℕ, String, Bool, Option, List}

pub record EngineArtist : Type 0 where
  pub id : String
  pub name : String

pub record EngineAlbum : Type 0 where
  pub id : String
  pub title : String

pub record EngineArtwork : Type 0 where
  pub id : String
  pub content_hash : String
  pub uri : Option String

pub record EngineTrack : Type 0 where
  pub id : String
  pub title : String
  pub artist : EngineArtist
  pub album : Option EngineAlbum
  pub duration_millis : ℕ
  pub explicit : Bool
  pub artwork : Option EngineArtwork
  pub genres : List String
