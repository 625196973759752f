-- ===== src/Actor/Core.antt =====
-- rust/engine/crates/app_core/src/engine/core.rs: the engine as the actor sees it. `E` is the type of
-- the engine; an operation that gives `none` panics. The authentication state is what the provider
-- of the actor answers.
use media_app.Prelude.{ℕ, String, Bool, Option, List}
use media_app.Model.Auth.{Account, AuthState}
use media_app.Model.Command.{EngineCommandType}
use media_app.Model.Effect.{EngineEffect, EngineEvent}
use media_app.Model.Error.{EngineResult}
use media_app.Model.History.{
  EngineHistoryIdentity, EngineHistoryEntry, EngineHistorySettings, EngineHistorySettingsUpdate,
  HistoryReconciliation,
}
use media_app.Model.Library.{EngineLibraryIdentity, EngineLibraryTrack}
use media_app.Model.Media.{EnginePlaybackSource, MediaItem}
use media_app.Model.Page.{EnginePageRequest, EnginePageToken, EnginePagedResult}
use media_app.Model.PlatformEvent.{EnginePlatformEvent}
use media_app.Model.Playlist.{EnginePlaylist}
use media_app.Model.Snapshot.{EngineSnapshot}

pub record EngineOutcome : Type 0 where
  pub snapshot : EngineSnapshot
  pub event : EngineEvent
  pub effects : List EngineEffect

pub record PrefetchedHistorySettings : Type 0 where
  pub settings : EngineResult EngineHistorySettings
  pub reconciliation : HistoryReconciliation

pub record PrefetchedHistoryPage : Type 0 where
  pub page : EngineResult (EnginePagedResult EngineHistoryEntry)
  pub reconciliation : HistoryReconciliation

pub data PrefetchedOperation : Type 0 where
  account : EngineResult Account → PrefetchedOperation
  search : EngineResult (EnginePagedResult MediaItem) → PrefetchedOperation
  playlists : EngineResult (EnginePagedResult EnginePlaylist) → PrefetchedOperation
  history_settings : PrefetchedHistorySettings → PrefetchedOperation
  history_settings_update : EngineResult EngineHistorySettingsUpdate → PrefetchedOperation
  history_page : PrefetchedHistoryPage → PrefetchedOperation
  history_delete : EngineResult (Unit {0}) → PrefetchedOperation
  history_clear : EngineResult ℕ → PrefetchedOperation
  playback : EngineResult EnginePlaybackSource → PrefetchedOperation
  library_page : EngineResult (EnginePagedResult EngineLibraryTrack) → PrefetchedOperation
  library_mutation : EngineResult (Option EngineLibraryTrack) → PrefetchedOperation

-- A continuation: whose it is, the size of its pages, and the token of the next one.
pub record Continuation (I : Type 0) : Type 0 where
  pub owner : I
  pub page_size : ℕ
  pub page_token : EnginePageToken

-- The methods of `Engine` that the actor calls, and `==` on snapshots. A port method says whether
-- the port is configured.
pub record EngineCore (E : Type 0) : Type 0 where
  pub dispatch : AuthState → EngineCommandType → ℕ → E → Option (E × EngineOutcome)
  pub dispatch_platform_event : AuthState → EnginePlatformEvent → ℕ → E → Option (E × EngineOutcome)
  pub tick : AuthState → ℕ → E → Option (E × List EngineOutcome)
  pub snapshot : E → EngineSnapshot
  pub same_snapshot : EngineSnapshot → EngineSnapshot → Bool
  pub sync_auth_state_projection : AuthState → E → E
  pub set_prefetched_operation : Option PrefetchedOperation → E → E
  pub account_port : E → Bool
  pub playlist_port : E → Bool
  pub history_port : E → Bool
  pub library_port : E → Bool
  pub playback_port : E → Bool
  pub catalog_continuation : String → E → Option (Continuation String)
  pub pending_anonymous_history : E → List EngineHistoryEntry
  pub bounded_history_page : EnginePageRequest → EnginePageRequest
  pub history_settings_enabled : E → Option Bool
  pub history_continuation : E → Option (Continuation EngineHistoryIdentity)
  pub library_continuation : Bool → E → Option (Continuation EngineLibraryIdentity)
