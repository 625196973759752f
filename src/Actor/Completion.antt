-- ===== src/Actor/Completion.antt =====
-- rust/engine/crates/app_core/src/engine/actor/state/operations.rs: whether an operation has a worker,
-- how its result is given back to the engine, and what the actor does with a completion.
use media_app.Prelude.{
  ℕ, max, Bool, true, false, not, ◌||◌, Option, none, some, List, [], ◌∷◌, ◌==◌, if◌then◌else◌,
}
use media_app.Model.Error.{EngineError, EngineResult, ok, err, engine_error, mapping_defect}
use media_app.Model.History.{no_reconciliation}
use media_app.Actor.Core.{EngineCore, EngineOutcome, PrefetchedOperation}
use media_app.Actor.Operation.{
  EngineOperationCompletion, EngineOperationRequest, EngineOperationResult, same_generation,
  is_current,
}
use media_app.Actor.Protocol.{ActorOutcome, ActorOutcomeStatus, completed, cancelled, superseded}
use media_app.Actor.State.{
  ActorState, PendingOperation, next_sequence, publish_snapshot, emit_outcome,
}

abbrev pub mismatched_result : EngineError
mismatched_result =
    engine_error mapping_defect "operation completion did not match the launched request" false

abbrev mismatched : {A : Type 0} → EngineResult A
mismatched = err mismatched_result

-- `prefetched_from`; a result that the request did not ask for is an error.
unfoldable pub prefetched_from :
    EngineOperationRequest → EngineResult EngineOperationResult → PrefetchedOperation
prefetched_from (EngineOperationRequest.account_projection _)
      (ok (EngineOperationResult.account_projection account)) =
    PrefetchedOperation.account (ok account)
prefetched_from (EngineOperationRequest.account_projection _) (ok _) =
    PrefetchedOperation.account mismatched
prefetched_from (EngineOperationRequest.account_projection _) (err e) =
    PrefetchedOperation.account (err e)
prefetched_from (EngineOperationRequest.search_page _ _ _)
      (ok (EngineOperationResult.search_page _ items token)) =
    PrefetchedOperation.search (ok (record { items = items; next_page_token = token }))
prefetched_from (EngineOperationRequest.search_page _ _ _) (ok _) =
    PrefetchedOperation.search mismatched
prefetched_from (EngineOperationRequest.search_page _ _ _) (err e) =
    PrefetchedOperation.search (err e)
prefetched_from (EngineOperationRequest.playlist_page _ _)
      (ok (EngineOperationResult.playlist_page playlists token)) =
    PrefetchedOperation.playlists (ok (record { items = playlists; next_page_token = token }))
prefetched_from (EngineOperationRequest.playlist_page _ _) (ok _) =
    PrefetchedOperation.playlists mismatched
prefetched_from (EngineOperationRequest.playlist_page _ _) (err e) =
    PrefetchedOperation.playlists (err e)
prefetched_from (EngineOperationRequest.history_settings _ _)
      (ok (EngineOperationResult.history_settings settings reconciliation)) =
    PrefetchedOperation.history_settings
      (record { settings = ok settings; reconciliation = reconciliation })
prefetched_from (EngineOperationRequest.history_settings _ _) (ok _) =
    PrefetchedOperation.history_settings
      (record { settings = mismatched; reconciliation = no_reconciliation })
prefetched_from (EngineOperationRequest.history_settings _ _) (err e) =
    PrefetchedOperation.history_settings
      (record { settings = err e; reconciliation = no_reconciliation })
prefetched_from (EngineOperationRequest.history_settings_update _ _)
      (ok (EngineOperationResult.history_settings_update update)) =
    PrefetchedOperation.history_settings_update (ok update)
prefetched_from (EngineOperationRequest.history_settings_update _ _) (ok _) =
    PrefetchedOperation.history_settings_update mismatched
prefetched_from (EngineOperationRequest.history_settings_update _ _) (err e) =
    PrefetchedOperation.history_settings_update (err e)
prefetched_from (EngineOperationRequest.history_page _ _ _ _)
      (ok (EngineOperationResult.history_page items token reconciliation)) =
    PrefetchedOperation.history_page (record {
      page = ok (record { items = items; next_page_token = token });
      reconciliation = reconciliation;
    })
prefetched_from (EngineOperationRequest.history_page _ _ _ _) (ok _) =
    PrefetchedOperation.history_page
      (record { page = mismatched; reconciliation = no_reconciliation })
prefetched_from (EngineOperationRequest.history_page _ _ _ _) (err e) =
    PrefetchedOperation.history_page (record { page = err e; reconciliation = no_reconciliation })
prefetched_from (EngineOperationRequest.history_delete _ _)
      (ok EngineOperationResult.history_deleted) =
    PrefetchedOperation.history_delete (ok tt)
prefetched_from (EngineOperationRequest.history_delete _ _) (ok _) =
    PrefetchedOperation.history_delete mismatched
prefetched_from (EngineOperationRequest.history_delete _ _) (err e) =
    PrefetchedOperation.history_delete (err e)
prefetched_from (EngineOperationRequest.history_clear _)
      (ok (EngineOperationResult.history_cleared deleted)) =
    PrefetchedOperation.history_clear (ok deleted)
prefetched_from (EngineOperationRequest.history_clear _) (ok _) =
    PrefetchedOperation.history_clear mismatched
prefetched_from (EngineOperationRequest.history_clear _) (err e) =
    PrefetchedOperation.history_clear (err e)
prefetched_from (EngineOperationRequest.playback_resolution _)
      (ok (EngineOperationResult.playback_resolved source)) =
    PrefetchedOperation.playback (ok source)
prefetched_from (EngineOperationRequest.playback_resolution _) (ok _) =
    PrefetchedOperation.playback mismatched
prefetched_from (EngineOperationRequest.playback_resolution _) (err e) =
    PrefetchedOperation.playback (err e)
prefetched_from (EngineOperationRequest.library_page _ _ _)
      (ok (EngineOperationResult.library_page items token)) =
    PrefetchedOperation.library_page (ok (record { items = items; next_page_token = token }))
prefetched_from (EngineOperationRequest.library_page _ _ _) (ok _) =
    PrefetchedOperation.library_page mismatched
prefetched_from (EngineOperationRequest.library_page _ _ _) (err e) =
    PrefetchedOperation.library_page (err e)
prefetched_from (EngineOperationRequest.library_mutation _ _ _)
      (ok (EngineOperationResult.library_mutation item)) =
    PrefetchedOperation.library_mutation (ok item)
prefetched_from (EngineOperationRequest.library_mutation _ _ _) (ok _) =
    PrefetchedOperation.library_mutation mismatched
prefetched_from (EngineOperationRequest.library_mutation _ _ _) (err e) =
    PrefetchedOperation.library_mutation (err e)

-- `HashMap::get`, `remove` and `insert` on the operations, by their identifier.
unfoldable pub find_pending : ℕ → List (ℕ × PendingOperation) → Option PendingOperation
find_pending id [] = none
find_pending id ((key, pending) ∷ rest) =
    let found = find_pending id rest in if key == id then some pending else found

unfoldable pub remove_pending : ℕ → List (ℕ × PendingOperation) → List (ℕ × PendingOperation)
remove_pending id [] = []
remove_pending id ((key, pending) ∷ rest) =
    let kept = remove_pending id rest in if key == id then kept else (key, pending) ∷ kept

unfoldable pub insert_pending :
    ℕ → PendingOperation → List (ℕ × PendingOperation) → List (ℕ × PendingOperation)
unfolding remove_pending
insert_pending id pending operations = (id, pending) ∷ remove_pending id operations

-- `emit_outcome` with the current snapshot, without event or effects.
abbrev pub without_dispatch : {E : Type 0} → ℕ → ActorOutcomeStatus → ActorState E → ActorOutcome
without_dispatch command_id status a = record {
  command_id = command_id;
  message_sequence = a.next_message_sequence;
  snapshot_revision = a.latest.revision;
  status = status;
  snapshot = a.latest.snapshot;
  event = none;
  effects = [];
}

-- The outcome of a dispatch, after its snapshot was published.
abbrev pub of_dispatch : {E : Type 0} → ℕ → EngineOutcome → ActorState E → ActorOutcome
of_dispatch command_id outcome a = record {
  command_id = command_id;
  message_sequence = a.next_message_sequence;
  snapshot_revision = a.latest.revision;
  status = completed;
  snapshot = outcome.snapshot;
  event = some outcome.event;
  effects = outcome.effects;
}

module _ {E : Type 0} (core : EngineCore E) where
  -- `spawn_operation_worker`: the port that the request needs is configured.
  unfoldable pub spawn_operation_worker : EngineOperationRequest → ActorState E → Bool
  spawn_operation_worker (EngineOperationRequest.account_projection _) a =
      core.account_port a.engine
  spawn_operation_worker (EngineOperationRequest.search_page _ _ _) a = true
  spawn_operation_worker (EngineOperationRequest.playlist_page _ _) a = core.playlist_port a.engine
  spawn_operation_worker (EngineOperationRequest.history_settings _ _) a =
      core.history_port a.engine
  spawn_operation_worker (EngineOperationRequest.history_settings_update _ _) a =
      core.history_port a.engine
  spawn_operation_worker (EngineOperationRequest.history_page _ _ _ _) a =
      core.history_port a.engine
  spawn_operation_worker (EngineOperationRequest.history_delete _ _) a = core.history_port a.engine
  spawn_operation_worker (EngineOperationRequest.history_clear _) a = core.history_port a.engine
  spawn_operation_worker (EngineOperationRequest.playback_resolution _) a =
      core.playback_port a.engine
  spawn_operation_worker (EngineOperationRequest.library_page _ _ _) a = core.library_port a.engine
  spawn_operation_worker (EngineOperationRequest.library_mutation _ _ _) a =
      core.library_port a.engine

  -- A dispatch that returned: the snapshot is published, and the outcome sent.
  unfoldable pub complete : ℕ → E × EngineOutcome → ActorState E → ActorState E
  unfolding publish_snapshot emit_outcome
  complete command_id dispatched a =
      let a' = publish_snapshot core dispatched.1.snapshot (record a { engine = dispatched.0 }) in
      emit_outcome (of_dispatch command_id dispatched.1 a') a'

  -- The completion is that of the operation, and its generation is the current one.
  unfoldable pub is_superseded : PendingOperation → EngineOperationCompletion → ActorState E → Bool
  is_superseded pending completion a =
      not (same_generation pending.operation.generation completion.generation)
      || not (is_current a.generations completion.generation)

  -- The engine's second dispatch of the command, which finds the result in its slot; `none` where it
  -- panics, which is not caught here.
  unfoldable pub redispatch :
      PendingOperation → EngineOperationCompletion → ActorState E → Option (ActorState E)
  unfolding complete prefetched_from
  redispatch pending completion a =
      let prefetched = prefetched_from pending.operation.request completion.result in
      elim (core.dispatch a.auth_state pending.command
        (max pending.now_epoch_millis a.latest_epoch_millis)
        (core.set_prefetched_operation (some prefetched) a.engine)) [
          | none ↦ none
          | some dispatched ↦ some (
              complete completion.command_id
                (core.set_prefetched_operation none dispatched.0, dispatched.1) a)
        ]

  unfoldable pub process_operation_completion :
      EngineOperationCompletion → ActorState E → Option (ActorState E)
  unfolding find_pending remove_pending is_superseded redispatch emit_outcome
  process_operation_completion completion a =
      elim (find_pending completion.operation_id a.pending_operations) [
        | none ↦ some a
        | some pending ↦
            let a' = next_sequence (record a {
              pending_operations = remove_pending completion.operation_id a.pending_operations;
            }) in
            if is_superseded pending completion a'
            then some
                (emit_outcome (without_dispatch completion.command_id (cancelled superseded) a') a')
            else redispatch pending completion a'
      ]
