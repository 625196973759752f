-- ===== src/Actor/Prepare.antt =====
-- rust/engine/crates/app_core/src/engine/actor/state/operations.rs: which commands have a remote
-- half that runs outside the actor, and under which generation.
use media_app.Prelude.{
  ℕ, String, Bool, true, false, not, ◌&&◌, Option, none, some, [], is_blank, str_eq, saturating_add,
  if◌then◌else◌,
}
use media_app.Prelude.Options.{◌>>=◌, ◌>>◌, require}
use media_app.Model.Command.{EngineCommandType}
use media_app.Model.History.{EngineHistoryIdentity}
use media_app.Model.Library.{
  EngineLibraryIdentity, EngineLibraryMutation, save, remove_saved, like, unlike,
}
use media_app.Model.Page.{EnginePageRequest, EnginePageToken}
use media_app.Actor.Core.{EngineCore}
use media_app.Actor.Operation.{
  DomainGenerations, EngineOperation, EngineOperationRequest, OperationGeneration,
}
use media_app.Actor.State.{ActorState}
use media_app.Actor.Generations.{
  account_identity, playlist_identity, history_identity, library_identity, bump_search_generation,
  bump_playlist_generation, bump_history_generation, bump_library_generation,
  bump_playback_generation,
}

-- `a == b` on identities.
abbrev same_history_identity : EngineHistoryIdentity → EngineHistoryIdentity → Bool
same_history_identity a b = str_eq a.account_id b.account_id && str_eq a.session_id b.session_id

abbrev same_library_identity : EngineLibraryIdentity → EngineLibraryIdentity → Bool
same_library_identity a b = str_eq a.account_id b.account_id && str_eq a.session_id b.session_id

abbrev next_page : ℕ → EnginePageToken → EnginePageRequest
next_page page_size token = record { page_size = page_size; page_token = some token }

module _ {E : Type 0} (core : EngineCore E) where
  -- `allocate_operation`, after the generations were set.
  unfoldable pub allocate_operation :
      ℕ
      → DomainGenerations
      → OperationGeneration
      → EngineOperationRequest
      → ActorState E
      → EngineOperation × ActorState E
  allocate_operation command_id generations generation request a = (
    record {
      operation_id = a.next_operation_id;
      command_id = command_id;
      generation = generation;
      request = request;
    },
    record a {
      generations = generations;
      next_operation_id = saturating_add a.next_operation_id 1;
    },
  )

  -- An operation of the history under its next generation.
  abbrev launch_history : ℕ → EngineOperationRequest → ActorState E → EngineOperation × ActorState E
  launch_history command_id request a =
      let g = bump_history_generation a.generations in
      allocate_operation command_id g (OperationGeneration.history g.history_generation) request a

  -- The identity of the history, where its port is configured.
  abbrev history_owner : ActorState E → Option EngineHistoryIdentity
  history_owner a = do
    identity ← history_identity a.auth_state
    require (core.history_port a.engine)
    some identity

  abbrev library_owner : ActorState E → Option EngineLibraryIdentity
  library_owner a = do
    identity ← library_identity a.auth_state
    require (core.library_port a.engine)
    some identity

  unfoldable pub prepare_library_page :
      ℕ → EnginePageRequest → Bool → Bool → ActorState E → Option (EngineOperation × ActorState E)
  unfolding allocate_operation
  prepare_library_page command_id page saved bump a = do
    identity ← library_owner a
    let g = if bump then bump_library_generation a.generations else a.generations
    some (
        allocate_operation command_id g (OperationGeneration.library g.library_generation)
          (EngineOperationRequest.library_page identity page saved) a)

  unfoldable pub prepare_library_continuation :
      ℕ → Bool → ActorState E → Option (EngineOperation × ActorState E)
  unfolding prepare_library_page
  prepare_library_continuation command_id saved a = do
    identity ← library_owner a
    continuation ← core.library_continuation saved a.engine
    require (same_library_identity identity continuation.owner)
    prepare_library_page command_id (next_page continuation.page_size continuation.page_token) saved
        false a

  unfoldable pub prepare_library_mutation :
      ℕ → String → EngineLibraryMutation → ActorState E → Option (EngineOperation × ActorState E)
  unfolding allocate_operation
  prepare_library_mutation command_id track_id mutation a = do
    require (not (is_blank track_id))
    identity ← library_owner a
    let g = bump_library_generation a.generations
    some (
        allocate_operation command_id g (OperationGeneration.library g.library_generation)
          (EngineOperationRequest.library_mutation identity track_id mutation) a)

  -- The operation and the state with it; nothing changes where there is none.
  unfoldable pub prepare_operation :
      ℕ → EngineCommandType → ActorState E → Option (EngineOperation × ActorState E)
  unfolding allocate_operation prepare_library_page prepare_library_continuation
      prepare_library_mutation
  prepare_operation command_id EngineCommandType.get_account a = do
    identity ← account_identity a.auth_state
    require (core.account_port a.engine)
    some (
        allocate_operation command_id a.generations
          (OperationGeneration.account a.generations.account_generation)
          (EngineOperationRequest.account_projection identity) a)
  prepare_operation command_id (EngineCommandType.search_catalog query page) a =
      let g = bump_search_generation a.generations in
      some (
        allocate_operation command_id g (OperationGeneration.search g.search_generation)
          (EngineOperationRequest.search_page query page none) a)
  prepare_operation command_id (EngineCommandType.load_next_catalog_page operation_id) a = do
    continuation ← core.catalog_continuation operation_id a.engine
    some (
        allocate_operation command_id a.generations
          (OperationGeneration.search a.generations.search_generation)
          (EngineOperationRequest.search_page continuation.owner
            (next_page continuation.page_size continuation.page_token) (some operation_id))
          a)
  prepare_operation command_id (EngineCommandType.list_playlists page) a = do
    identity ← playlist_identity a.auth_state
    require (core.playlist_port a.engine)
    let g = bump_playlist_generation a.generations
    some (
        allocate_operation command_id g (OperationGeneration.playlist g.playlist_generation)
          (EngineOperationRequest.playlist_page identity page) a)
  prepare_operation command_id EngineCommandType.load_history_settings a = do
    identity ← history_owner a
    some (
        launch_history command_id
          (EngineOperationRequest.history_settings identity
            (core.pending_anonymous_history a.engine))
          a)
  prepare_operation command_id (EngineCommandType.update_history_settings enabled) a = do
    identity ← history_owner a
    some (
        launch_history command_id (EngineOperationRequest.history_settings_update identity enabled)
          a)
  prepare_operation command_id (EngineCommandType.list_history page) a = do
    identity ← history_owner a
    some (
        launch_history command_id
          (EngineOperationRequest.history_page identity (core.bounded_history_page page)
            (core.pending_anonymous_history a.engine) (core.history_settings_enabled a.engine))
          a)
  prepare_operation command_id EngineCommandType.load_next_history_page a = do
    identity ← history_owner a
    continuation ← core.history_continuation a.engine
    require (same_history_identity identity continuation.owner)
    some (
        allocate_operation command_id a.generations
          (OperationGeneration.history a.generations.history_generation)
          (EngineOperationRequest.history_page identity
            (next_page continuation.page_size continuation.page_token) []
            (core.history_settings_enabled a.engine))
          a)
  prepare_operation command_id (EngineCommandType.delete_history_entry history_id) a = do
    require (not (is_blank history_id))
    identity ← history_owner a
    some (launch_history command_id (EngineOperationRequest.history_delete identity history_id) a)
  prepare_operation command_id EngineCommandType.clear_history a = do
    identity ← history_owner a
    some (launch_history command_id (EngineOperationRequest.history_clear identity) a)
  prepare_operation command_id (EngineCommandType.play_media_by_id media_id) a = do
    require (core.playback_port a.engine)
    let g = bump_playback_generation a.generations
    some (
        allocate_operation command_id g (OperationGeneration.playback g.playback_generation)
          (EngineOperationRequest.playback_resolution media_id) a)
  prepare_operation command_id (EngineCommandType.list_saved_tracks page) a =
      prepare_library_page command_id page true true a
  prepare_operation command_id (EngineCommandType.list_liked_tracks page) a =
      prepare_library_page command_id page false true a
  prepare_operation command_id EngineCommandType.load_next_saved_tracks_page a =
      prepare_library_continuation command_id true a
  prepare_operation command_id EngineCommandType.load_next_liked_tracks_page a =
      prepare_library_continuation command_id false a
  prepare_operation command_id (EngineCommandType.save_track track_id) a =
      prepare_library_mutation command_id track_id save a
  prepare_operation command_id (EngineCommandType.remove_saved_track track_id) a =
      prepare_library_mutation command_id track_id remove_saved a
  prepare_operation command_id (EngineCommandType.like_track track_id) a =
      prepare_library_mutation command_id track_id like a
  prepare_operation command_id (EngineCommandType.unlike_track track_id) a =
      prepare_library_mutation command_id track_id unlike a
  prepare_operation command_id _ a = none
