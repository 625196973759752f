-- ===== src/Tests/Workers.antt =====
-- Tests of the workers, around a service that takes the first listen and declines the second.
use media_app.Prelude.{◌≡◌, refl, true, false, none, some, [], ◌∷◌, String, is_blank, ◌==◌}
use media_app.Model.Error.{EngineResult, ok, err, engine_error, network_error}
use media_app.Model.History.{EngineHistoryEntry, EngineHistoryIdentity, to_playback_record}
use media_app.Model.Page.{default_page}
use media_app.Actor.Operation.{EngineOperationRequest}
use media_app.Actor.Completion.{prefetched_from}
use media_app.Actor.Worker.{RemotePorts, reconcile_from, run_worker}
use media_app.Actor.Worker.Answers.{
  first_error, port_answer, prefetched_from-run_worker, reconcile_from-settles, settled_ids,
}
use media_app.Tests.Libraries.{saved_track}

abbrev down : {A : Type 0} → EngineResult A
down = err (engine_error network_error "down" false)

abbrev first_only : RemotePorts
first_only = record {
  get_account = λ identity. down;
  search_catalog = λ query page. down;
  list_playlists = λ identity page. down;
  get_settings = λ identity. ok (record { enabled = true });
  update_settings = λ identity enabled. down;
  record_listen = λ call identity listen. ok (call == 0);
  list_history = λ identity page. ok (record { items = []; next_page_token = none });
  delete_entry = λ identity id. ok tt;
  clear = λ identity. ok 3;
  resolve_playback = λ id. down;
  list_saved = λ identity page. down;
  list_liked = λ identity page. down;
  save_track = λ identity id. down;
  remove_track = λ identity id. down;
  like_track = λ identity id. down;
  unlike_track = λ identity id. down;
}

abbrev ada_history : EngineHistoryIdentity
ada_history = record { account_id = "ada"; session_id = "s1" }

abbrev listen_of : String → EngineHistoryEntry
listen_of id = record {
  id = id;
  played_at_epoch_millis = some 1;
  duration_millis = 6000;
  completion_ratio = 1056964608;
  track = some (saved_track id).track;
}

prefetched_from-run_worker_example :
    prefetched_from
      (EngineOperationRequest.history_page ada_history default_page
        (listen_of "dawn" ∷ listen_of "noon" ∷ [])
        (some true))
      (run_worker first_only (
        EngineOperationRequest.history_page ada_history default_page
          (listen_of "dawn" ∷ listen_of "noon" ∷ [])
          (some true)))
    ≡ port_answer first_only (
        EngineOperationRequest.history_page ada_history default_page
          (listen_of "dawn" ∷ listen_of "noon" ∷ [])
          (some true))
prefetched_from-run_worker_example = prefetched_from-run_worker first_only (
    EngineOperationRequest.history_page ada_history default_page
      (listen_of "dawn" ∷ listen_of "noon" ∷ []) (some true))

-- The listen that was declined is kept.
first_is_promoted :
    settled_ids first_only ada_history 0 (listen_of "dawn" ∷ listen_of "noon" ∷ []) ≡ "dawn" ∷ []
unfolding settled_ids to_playback_record is_blank
first_is_promoted = refl

reconcile_from-settles_example :
    reconcile_from first_only ada_history 0 [] (listen_of "dawn" ∷ listen_of "noon" ∷ []) ≡ record {
      promoted_entry_ids =
          settled_ids first_only ada_history 0 (listen_of "dawn" ∷ listen_of "noon" ∷ []);
      clear_anonymous = false;
      error = first_error first_only ada_history 0 (listen_of "dawn" ∷ listen_of "noon" ∷ []);
    }
reconcile_from-settles_example =
    reconcile_from-settles first_only ada_history 0 [] (listen_of "dawn" ∷ listen_of "noon" ∷ [])
