-- ===== src/Actor/Worker.antt =====
-- rust/engine/crates/app_core/src/engine/actor/state/operations.rs: what runs outside the actor for an
-- operation. The ports are arguments; `record_listen` is asked once for each listen, by its number.
pub mod Answers
use media_app.Prelude.{
  ℕ, suc, String, Bool, true, false, Option, none, some, List, [], ◌∷◌, ◌++◌, if◌then◌else◌,
}
use media_app.Model.Auth.{Account}
use media_app.Model.Error.{EngineError, EngineResult, ok, err, engine_error, EngineErrorType, ◌>>=◌}
use media_app.Model.History.{
  EngineHistoryIdentity, EngineHistoryEntry, EngineHistorySettings, EngineHistorySettingsUpdate,
  EnginePlaybackRecord, HistoryReconciliation, no_reconciliation, to_playback_record,
}
use media_app.Model.Library.{
  EngineLibraryIdentity, EngineLibraryTrack, save, remove_saved, like, unlike,
}
use media_app.Model.Media.{EnginePlaybackSource, MediaItem}
use media_app.Model.Page.{EnginePageRequest, EnginePagedResult}
use media_app.Model.Playlist.{EnginePlaylist, EnginePlaylistIdentity}
use media_app.Actor.Operation.{
  EngineAccountIdentity, EngineOperation, EngineOperationCompletion, EngineOperationRequest,
  EngineOperationResult, completion_of,
}

pub record RemotePorts : Type 0 where
  pub get_account : EngineAccountIdentity → EngineResult Account
  pub search_catalog : String → EnginePageRequest → EngineResult (EnginePagedResult MediaItem)
  pub list_playlists :
      EnginePlaylistIdentity → EnginePageRequest → EngineResult (EnginePagedResult EnginePlaylist)
  pub get_settings : EngineHistoryIdentity → EngineResult EngineHistorySettings
  pub update_settings : EngineHistoryIdentity → Bool → EngineResult EngineHistorySettingsUpdate
  pub record_listen : ℕ → EngineHistoryIdentity → EnginePlaybackRecord → EngineResult Bool
  pub list_history :
      EngineHistoryIdentity
      → EnginePageRequest
      → EngineResult (EnginePagedResult EngineHistoryEntry)
  pub delete_entry : EngineHistoryIdentity → String → EngineResult (Unit {0})
  pub clear : EngineHistoryIdentity → EngineResult ℕ
  pub resolve_playback : String → EngineResult EnginePlaybackSource
  pub list_saved :
      EngineLibraryIdentity
      → EnginePageRequest
      → EngineResult (EnginePagedResult EngineLibraryTrack)
  pub list_liked :
      EngineLibraryIdentity
      → EnginePageRequest
      → EngineResult (EnginePagedResult EngineLibraryTrack)
  pub save_track : EngineLibraryIdentity → String → EngineResult EngineLibraryTrack
  pub remove_track : EngineLibraryIdentity → String → EngineResult (Unit {0})
  pub like_track : EngineLibraryIdentity → String → EngineResult EngineLibraryTrack
  pub unlike_track : EngineLibraryIdentity → String → EngineResult (Unit {0})

-- `unwrap_or_default()` on an optional text.
abbrev or_empty : Option String → String
or_empty none = ""
or_empty (some text) = text

module _ (ports : RemotePorts) where
  -- The loop of `reconcile_anonymous_entries`, after some calls and promotions.
  unfoldable pub reconcile_from :
      EngineHistoryIdentity → ℕ → List String → List EngineHistoryEntry → HistoryReconciliation
  reconcile_from identity calls promoted [] = record {
    promoted_entry_ids = promoted;
    clear_anonymous = false;
    error = none;
  }
  reconcile_from identity calls promoted (entry ∷ entries) =
      let promote = reconcile_from identity calls (promoted ++ entry.id ∷ []) entries in
      let accepted = reconcile_from identity (suc calls) (promoted ++ entry.id ∷ []) entries in
      let declined = reconcile_from identity (suc calls) promoted entries in
      elim (to_playback_record entry) [
        | none ↦ promote
        | some listen ↦ elim (ports.record_listen calls identity listen) [
          | ok was_recorded ↦ if was_recorded then accepted else declined
          | err e ↦ record {
            promoted_entry_ids = promoted;
            clear_anonymous = false;
            error = some e;
          }
        ]
      ]

  unfoldable pub reconcile_enabled :
      EngineHistoryIdentity → List EngineHistoryEntry → Bool → HistoryReconciliation
  unfolding reconcile_from
  reconcile_enabled identity pending enabled =
      if enabled
      then reconcile_from identity 0 [] pending
      else record no_reconciliation { clear_anonymous = true }

  unfoldable pub reconcile_anonymous_entries :
      EngineHistoryIdentity → List EngineHistoryEntry → Option Bool → HistoryReconciliation
  unfolding reconcile_enabled
  reconcile_anonymous_entries identity [] known = no_reconciliation
  reconcile_anonymous_entries identity (entry ∷ entries) (some enabled) =
      reconcile_enabled identity (entry ∷ entries) enabled
  reconcile_anonymous_entries identity (entry ∷ entries) none = elim (ports.get_settings identity) [
    | ok settings ↦ reconcile_enabled identity (entry ∷ entries) settings.enabled
    | err e ↦ record no_reconciliation { error = some e }
  ]

  -- What the worker of a request brings back.
  unfoldable pub run_worker : EngineOperationRequest → EngineResult EngineOperationResult
  unfolding reconcile_anonymous_entries
  run_worker (EngineOperationRequest.account_projection identity) = do
    account ← ports.get_account identity
    ok (EngineOperationResult.account_projection account)
  run_worker (EngineOperationRequest.search_page query page operation_id) = do
    paged ← ports.search_catalog query page
    ok (EngineOperationResult.search_page (or_empty operation_id) paged.items paged.next_page_token)
  run_worker (EngineOperationRequest.playlist_page identity page) = do
    paged ← ports.list_playlists identity page
    ok (EngineOperationResult.playlist_page paged.items paged.next_page_token)
  run_worker (EngineOperationRequest.history_settings identity pending) = do
    settings ← ports.get_settings identity
    ok (
        EngineOperationResult.history_settings settings (
          if settings.enabled
          then reconcile_anonymous_entries identity pending (some true)
          else no_reconciliation))
  run_worker (EngineOperationRequest.history_settings_update identity enabled) = do
    update ← ports.update_settings identity enabled
    ok (EngineOperationResult.history_settings_update update)
  run_worker (EngineOperationRequest.history_page identity page pending settings_enabled) = do
    let reconciliation = reconcile_anonymous_entries identity pending settings_enabled
    paged ← ports.list_history identity page
    ok (EngineOperationResult.history_page paged.items paged.next_page_token reconciliation)
  run_worker (EngineOperationRequest.history_delete identity history_id) = do
    u ← ports.delete_entry identity history_id
    ok EngineOperationResult.history_deleted
  run_worker (EngineOperationRequest.history_clear identity) = do
    deleted ← ports.clear identity
    ok (EngineOperationResult.history_cleared deleted)
  run_worker (EngineOperationRequest.playback_resolution media_id) = do
    source ← ports.resolve_playback media_id
    ok (EngineOperationResult.playback_resolved source)
  run_worker (EngineOperationRequest.library_page identity page saved) = do
    paged ← (if saved then ports.list_saved identity page else ports.list_liked identity page)
    ok (EngineOperationResult.library_page paged.items paged.next_page_token)
  run_worker (EngineOperationRequest.library_mutation identity track_id save) = do
    item ← ports.save_track identity track_id
    ok (EngineOperationResult.library_mutation (some item))
  run_worker (EngineOperationRequest.library_mutation identity track_id remove_saved) = do
    u ← ports.remove_track identity track_id
    ok (EngineOperationResult.library_mutation none)
  run_worker (EngineOperationRequest.library_mutation identity track_id like) = do
    item ← ports.like_track identity track_id
    ok (EngineOperationResult.library_mutation (some item))
  run_worker (EngineOperationRequest.library_mutation identity track_id unlike) = do
    u ← ports.unlike_track identity track_id
    ok (EngineOperationResult.library_mutation none)

abbrev operation_worker_panic_error : EngineError
operation_worker_panic_error =
    engine_error EngineErrorType.unknown "asynchronous engine operation failed" false

-- What `spawn_panic_safe_operation_worker` sends: `none` is a worker that panicked.
unfoldable pub worker_completion :
    EngineOperation → Option (EngineResult EngineOperationResult) → EngineOperationCompletion
worker_completion operation none = completion_of operation (err operation_worker_panic_error)
worker_completion operation (some result) = completion_of operation result
