-- ===== src/Model/Library.antt =====
-- rust/engine/crates/app_core/src/model/library.rs: saved and liked tracks, whose list they are, and
-- the changes a listener makes to it.
use media_app.Prelude.{ℕ, String, false, ◌||◌, is_blank, if◌then◌else◌}
use media_app.Model.Catalog.{EngineTrack}
use media_app.Model.Error.{EngineError, EngineResult, ok, err, engine_error, invalid_input}

pub record EngineLibraryIdentity : Type 0 where
  pub account_id : String
  pub session_id : String

abbrev invalid_library_input : String → EngineError
invalid_library_input message = engine_error invalid_input message false

-- `EngineLibraryIdentity::new`.
unfoldable pub library_identity_of : String → String → EngineResult EngineLibraryIdentity
library_identity_of account_id session_id =
    if is_blank account_id || is_blank session_id
    then err (invalid_library_input "library identity requires account and current session ids")
    else ok (record { account_id = account_id; session_id = session_id })

pub data EngineLibraryMutation : Type 0 where
  save remove_saved like unlike : EngineLibraryMutation

pub record EngineLibraryTrack : Type 0 where
  pub relationship_id : String
  pub track : EngineTrack
  pub relationship_at_epoch_millis : ℕ
