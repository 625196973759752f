-- ===== src/Actor/Operation.antt =====
-- rust/engine/crates/app_core/src/engine/actor/ids.rs and operation.rs: the generations of the six
-- domains, and the work that is done outside the actor. Every identifier is its number.
use media_app.Prelude.{ℕ, String, Bool, false, Option, List, ◌==◌}
use media_app.Model.Auth.{Account}
use media_app.Model.Error.{EngineResult}
use media_app.Model.History.{
  EngineHistoryIdentity, EngineHistoryEntry, EngineHistorySettings, EngineHistorySettingsUpdate,
  HistoryReconciliation,
}
use media_app.Model.Library.{EngineLibraryIdentity, EngineLibraryMutation, EngineLibraryTrack}
use media_app.Model.Media.{EnginePlaybackSource, MediaItem}
use media_app.Model.Page.{EnginePageRequest, EnginePageToken}
use media_app.Model.Playlist.{EnginePlaylist, EnginePlaylistIdentity}

-- `EngineAccountIdentity` of model/auth.rs.
pub record EngineAccountIdentity : Type 0 where
  pub account_id : String
  pub session_id : String

pub data OperationGeneration : Type 0 where
  account search playlist history library playback : ℕ → OperationGeneration

-- `a == b` on generations.
unfoldable pub same_generation : OperationGeneration → OperationGeneration → Bool
same_generation (account a) (account b) = a == b
same_generation (search a) (search b) = a == b
same_generation (playlist a) (playlist b) = a == b
same_generation (history a) (history b) = a == b
same_generation (library a) (library b) = a == b
same_generation (playback a) (playback b) = a == b
same_generation _ _ = false

pub data EngineOperationRequest : Type 0 where
  account_projection : EngineAccountIdentity → EngineOperationRequest
  search_page : String → EnginePageRequest → Option String → EngineOperationRequest
  playlist_page : EnginePlaylistIdentity → EnginePageRequest → EngineOperationRequest
  history_settings : EngineHistoryIdentity → List EngineHistoryEntry → EngineOperationRequest
  history_settings_update : EngineHistoryIdentity → Bool → EngineOperationRequest
  history_page :
      EngineHistoryIdentity
      → EnginePageRequest
      → List EngineHistoryEntry
      → Option Bool
      → EngineOperationRequest
  history_delete : EngineHistoryIdentity → String → EngineOperationRequest
  history_clear : EngineHistoryIdentity → EngineOperationRequest
  playback_resolution : String → EngineOperationRequest
  library_page : EngineLibraryIdentity → EnginePageRequest → Bool → EngineOperationRequest
  library_mutation : EngineLibraryIdentity → String → EngineLibraryMutation → EngineOperationRequest

pub record EngineOperation : Type 0 where
  pub operation_id : ℕ
  pub command_id : ℕ
  pub generation : OperationGeneration
  pub request : EngineOperationRequest

pub data EngineOperationResult : Type 0 where
  account_projection : Account → EngineOperationResult
  search_page : String → List MediaItem → Option EnginePageToken → EngineOperationResult
  playlist_page : List EnginePlaylist → Option EnginePageToken → EngineOperationResult
  history_settings : EngineHistorySettings → HistoryReconciliation → EngineOperationResult
  history_settings_update : EngineHistorySettingsUpdate → EngineOperationResult
  history_page :
      List EngineHistoryEntry
      → Option EnginePageToken
      → HistoryReconciliation
      → EngineOperationResult
  history_deleted : EngineOperationResult
  history_cleared : ℕ → EngineOperationResult
  playback_resolved : EnginePlaybackSource → EngineOperationResult
  library_page : List EngineLibraryTrack → Option EnginePageToken → EngineOperationResult
  library_mutation : Option EngineLibraryTrack → EngineOperationResult

pub record EngineOperationCompletion : Type 0 where
  pub operation_id : ℕ
  pub command_id : ℕ
  pub generation : OperationGeneration
  pub result : EngineResult EngineOperationResult

-- `EngineOperation::completion`.
abbrev pub completion_of :
    EngineOperation → EngineResult EngineOperationResult → EngineOperationCompletion
completion_of operation result = record {
  operation_id = operation.operation_id;
  command_id = operation.command_id;
  generation = operation.generation;
  result = result;
}

pub record DomainGenerations : Type 0 where
  pub account_generation : ℕ
  pub search_generation : ℕ
  pub playlist_generation : ℕ
  pub history_generation : ℕ
  pub library_generation : ℕ
  pub playback_generation : ℕ

-- `DomainGenerations::default()`.
abbrev pub default_generations : DomainGenerations
default_generations = record {
  account_generation = 0;
  search_generation = 0;
  playlist_generation = 0;
  history_generation = 0;
  library_generation = 0;
  playback_generation = 0;
}

unfoldable pub is_current : DomainGenerations → OperationGeneration → Bool
is_current g (account generation) = g.account_generation == generation
is_current g (search generation) = g.search_generation == generation
is_current g (playlist generation) = g.playlist_generation == generation
is_current g (history generation) = g.history_generation == generation
is_current g (library generation) = g.library_generation == generation
is_current g (playback generation) = g.playback_generation == generation
