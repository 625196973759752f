-- ===== src/Actor/Worker/Answers.antt =====
-- rust/engine/crates/app_core/src/engine/actor/state/operations.rs: what the engine gets from a worker,
-- and what becomes of the listens of before the login.
use mathlib.Core.List.{append_assoc, append-nil}
use media_app.Prelude.{
  ℕ, suc, ◌≡◌, String, true, false, Option, none, some, List, [], ◌∷◌, ◌++◌, inl, inr, arith,
  if◌then◌else◌,
}
use media_app.Model.Error.{EngineError, EngineResult, ok, err, EngineResult-cases}
use media_app.Model.History.{
  EngineHistoryIdentity, EngineHistoryEntry, EngineHistorySettings, HistoryReconciliation,
  no_reconciliation, to_playback_record,
}
use media_app.Model.Library.{EngineLibraryTrack, save, remove_saved, like, unlike}
use media_app.Actor.Core.{PrefetchedOperation, PrefetchedHistorySettings}
use media_app.Actor.Operation.{EngineOperationRequest}
use media_app.Actor.Completion.{prefetched_from}
use media_app.Actor.Worker.{RemotePorts, reconcile_anonymous_entries, reconcile_from, run_worker}

module _ (ports : RemotePorts) where
  -- `map(Some)` and `map(|()| None)` on an answer.
  abbrev with_item : EngineResult EngineLibraryTrack → EngineResult (Option EngineLibraryTrack)
  with_item (ok item) = ok (some item)
  with_item (err e) = err e

  abbrev without_item : EngineResult (Unit {0}) → EngineResult (Option EngineLibraryTrack)
  without_item (ok u) = ok none
  without_item (err e) = err e

  abbrev settings_answer :
      EngineResult EngineHistorySettings → HistoryReconciliation → PrefetchedHistorySettings
  settings_answer (ok settings) reconciliation = record {
    settings = ok settings;
    reconciliation = if settings.enabled then reconciliation else no_reconciliation;
  }
  settings_answer (err e) reconciliation = record {
    settings = err e;
    reconciliation = no_reconciliation;
  }

  -- What the ports answered, request by request. Where the page of the history cannot be read, what
  -- the reconciliation before it promoted is dropped.
  unfoldable pub port_answer : EngineOperationRequest → PrefetchedOperation
  port_answer (EngineOperationRequest.account_projection identity) =
      PrefetchedOperation.account (ports.get_account identity)
  port_answer (EngineOperationRequest.search_page query page operation_id) =
      PrefetchedOperation.search (ports.search_catalog query page)
  port_answer (EngineOperationRequest.playlist_page identity page) =
      PrefetchedOperation.playlists (ports.list_playlists identity page)
  port_answer (EngineOperationRequest.history_settings identity pending) =
      PrefetchedOperation.history_settings (
        settings_answer (ports.get_settings identity)
          (reconcile_anonymous_entries ports identity pending (some true)))
  port_answer (EngineOperationRequest.history_settings_update identity enabled) =
      PrefetchedOperation.history_settings_update (ports.update_settings identity enabled)
  port_answer (EngineOperationRequest.history_page identity page pending enabled) =
      PrefetchedOperation.history_page (elim (ports.list_history identity page) [
        | ok paged ↦ record {
          page = ok paged;
          reconciliation = reconcile_anonymous_entries ports identity pending enabled;
        }
        | err e ↦ record { page = err e; reconciliation = no_reconciliation }
      ])
  port_answer (EngineOperationRequest.history_delete identity history_id) =
      PrefetchedOperation.history_delete (ports.delete_entry identity history_id)
  port_answer (EngineOperationRequest.history_clear identity) =
      PrefetchedOperation.history_clear (ports.clear identity)
  port_answer (EngineOperationRequest.playback_resolution media_id) =
      PrefetchedOperation.playback (ports.resolve_playback media_id)
  port_answer (EngineOperationRequest.library_page identity page saved) =
      PrefetchedOperation.library_page
        (if saved then ports.list_saved identity page else ports.list_liked identity page)
  port_answer (EngineOperationRequest.library_mutation identity track_id save) =
      PrefetchedOperation.library_mutation (with_item (ports.save_track identity track_id))
  port_answer (EngineOperationRequest.library_mutation identity track_id remove_saved) =
      PrefetchedOperation.library_mutation (without_item (ports.remove_track identity track_id))
  port_answer (EngineOperationRequest.library_mutation identity track_id like) =
      PrefetchedOperation.library_mutation (with_item (ports.like_track identity track_id))
  port_answer (EngineOperationRequest.library_mutation identity track_id unlike) =
      PrefetchedOperation.library_mutation (without_item (ports.unlike_track identity track_id))

  -- The slot that the second dispatch of a command reads holds what the ports answered to the
  -- worker, for every request: a worker's own result is never taken for a mismatch.
  pub prefetched_from-run_worker :
      (request : EngineOperationRequest)
      → (prefetched_from request (run_worker ports request) ≡ port_answer request)
  unfolding prefetched_from run_worker port_answer
  prefetched_from-run_worker (EngineOperationRequest.history_page identity page pending enabled) =
      elim (EngineResult-cases (ports.list_history identity page)) [
        | inl (paged, e) ↦ rw (e, run_worker, port_answer)
        | inr (failure, e) ↦ rw (e, run_worker, port_answer)
      ]
  prefetched_from-run_worker request = ground arith

  -- The listens that need no further try: those that cannot be recorded, and those that the port
  -- took, in their order.
  unfoldable pub settled_ids : EngineHistoryIdentity → ℕ → List EngineHistoryEntry → List String
  settled_ids identity calls [] = []
  settled_ids identity calls (entry ∷ entries) =
      let rest = settled_ids identity calls entries in
      let after = settled_ids identity (suc calls) entries in
      elim (to_playback_record entry) [
        | none ↦ entry.id ∷ rest
        | some listen ↦ elim (ports.record_listen calls identity listen) [
          | ok was_recorded ↦ if was_recorded then entry.id ∷ after else after
          | err e ↦ []
        ]
      ]

  -- The error of the first call that fails.
  unfoldable pub first_error :
      EngineHistoryIdentity → ℕ → List EngineHistoryEntry → Option EngineError
  first_error identity calls [] = none
  first_error identity calls (entry ∷ entries) =
      let rest = first_error identity calls entries in
      let after = first_error identity (suc calls) entries in
      elim (to_playback_record entry) [
        | none ↦ rest
        | some listen ↦ elim (ports.record_listen calls identity listen) [
          | ok was_recorded ↦ after
          | err e ↦ some e
        ]
      ]

  -- A reconciliation promotes the listens that need no further try, up to the first call that
  -- fails, whose error it reports; it never asks for the others to be dropped.
  pub reconcile_from-settles :
      (identity : EngineHistoryIdentity) (calls : ℕ) (promoted : List String)
      → (entries : List EngineHistoryEntry)
      → (reconcile_from ports identity calls promoted entries ≡ record {
        promoted_entry_ids = promoted ++ settled_ids identity calls entries;
        clear_anonymous = false;
        error = first_error identity calls entries;
      })
  unfolding reconcile_from settled_ids first_error
  reconcile_from-settles identity calls promoted [] = rw (append-nil promoted)
  reconcile_from-settles identity calls promoted (entry ∷ entries) =
      let more = promoted ++ entry.id ∷ [] in
      ground (
        arith,
        reconcile_from-settles identity calls more entries,
        reconcile_from-settles identity (suc calls) more entries,
        reconcile_from-settles identity (suc calls) promoted entries,
        append-nil promoted,
        append_assoc promoted (entry.id ∷ []) (settled_ids identity calls entries),
        append_assoc promoted (entry.id ∷ []) (settled_ids identity (suc calls) entries),
      )
