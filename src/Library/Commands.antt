-- ===== src/Library/Commands.antt =====
-- rust/engine/crates/app_core/src/engine/core/library.rs: the commands of the library. `saved` chooses
-- between the saved and the liked tracks.
use media_app.Prelude.{
  ℕ, String, Bool, true, false, Option, none, some, List, [], ◌∷◌, ◌++◌, any, str_eq, is_blank,
  if◌then◌else◌,
}
use media_app.Model.Command.{EngineCommandType}
use media_app.Model.Error.{
  EngineError, EngineErrorType, EngineResult, ok, err, engine_error, invalid_input, ◌>>=◌,
}
use media_app.Model.Library.{
  EngineLibraryMutation, EngineLibraryTrack, save, remove_saved, like, unlike,
}
use media_app.Model.Page.{EnginePageRequest, EnginePageToken}
use media_app.Library.{
  AuthIdentity, LibraryPageOperation, LibraryPort, LibraryState, Page, Reply, append_unique, failed,
  from_state, is_identity, library_login_required, library_owner, precondition,
  result_for_current_identity, same_identity, upsert, without_id, without_track,
}

abbrev pub tracks_of : Bool → LibraryState → List EngineLibraryTrack
tracks_of saved s = if saved then s.saved_tracks else s.liked_tracks

abbrev pub with_tracks :
    Bool → List EngineLibraryTrack → Option EnginePageToken → LibraryState → LibraryState
with_tracks true items token s = record s {
  saved_tracks = items;
  saved_tracks_next_page_token = token;
}
with_tracks false items token s = record s {
  liked_tracks = items;
  liked_tracks_next_page_token = token;
}

abbrev with_operation : Bool → Option LibraryPageOperation → LibraryState → LibraryState
with_operation true operation s = record s { saved_library_operation = operation }
with_operation false operation s = record s { liked_library_operation = operation }

-- `take_prefetched_library_page`, or the port's answer.
unfoldable pub page_reply :
    LibraryPort → Bool → AuthIdentity → EnginePageRequest → LibraryState → Reply Page
page_reply port saved identity page s = elim s.prefetched_page [
  | some answer ↦ record { answer = answer; auth = port.current_auth }
  | none ↦ if saved then port.list_saved identity page else port.list_liked identity page
]

abbrev pub page_taken : LibraryState → LibraryState
page_taken s = record s { prefetched_page = none }

-- What a listing leaves, by its answer; a missing list is an empty one.
unfoldable pub listed : Bool → ℕ → AuthIdentity → EngineResult Page × LibraryState → LibraryState
listed saved page_size identity (ok page, s) =
    with_operation saved (some (record { auth_identity = identity; page_size = page_size }))
      (record (with_tracks saved page.items page.next_page_token s) {
        library_projection_identity = some identity;
      })
listed saved page_size identity (err e, s) = elim e.error_type [
  | EngineErrorType.not_found ↦ s
  | _ ↦ failed e s
]

-- `ListSavedTracks` and `ListLikedTracks`.
unfoldable pub list_tracks :
    Option LibraryPort → Bool → EnginePageRequest → LibraryState → LibraryState
unfolding library_owner page_reply result_for_current_identity listed
list_tracks port saved page s =
    let cleared = with_operation saved none (with_tracks saved [] none s) in
    elim (library_owner port cleared) [
      | err e ↦
          listed saved page.page_size (record { account_id = ""; session_id = "" }) (err e, cleared)
      | ok owner ↦ listed saved page.page_size owner.0 (
          result_for_current_identity owner.0 (page_reply owner.1 saved owner.0 page cleared)
            (page_taken cleared))
    ]

abbrev operation_of : Bool → LibraryState → Option LibraryPageOperation
operation_of saved s = if saved then s.saved_library_operation else s.liked_library_operation

abbrev token_of : Bool → LibraryState → Option EnginePageToken
token_of saved s = if saved then s.saved_tracks_next_page_token else s.liked_tracks_next_page_token

-- `ok_or_else`.
abbrev required : {A : Type 0} → Option A → EngineError → EngineResult A
required none e = err e
required (some a) e = ok a

-- The checks of `load_next_library_page`: who asks, and for which page of which port.
unfoldable pub next_request :
    Option LibraryPort
    → Bool
    → LibraryState
    → EngineResult (AuthIdentity × LibraryPort × EnginePageRequest)
unfolding from_state
next_request port saved s = do
  identity ← required (from_state s.auth_state) library_login_required
  operation ← required (operation_of saved s) (precondition "no current library page operation")
  owned ←
      (if same_identity identity operation.auth_identity
        then ok identity
        else err library_login_required)
  token ← required (token_of saved s) (precondition "library page has no continuation")
  configured ← required port (precondition "library service is not configured")
  ok (owned, configured, record { page_size = operation.page_size; page_token = some token })

unfoldable pub continued : Bool → EngineResult Page × LibraryState → LibraryState
unfolding append_unique
continued saved (ok page, s) =
    with_tracks saved (append_unique (tracks_of saved s) page.items) page.next_page_token s
continued saved (err e, s) = failed e s

-- `LoadNextSavedTracksPage` and `LoadNextLikedTracksPage`.
unfoldable pub load_next_tracks : Option LibraryPort → Bool → LibraryState → LibraryState
unfolding next_request page_reply result_for_current_identity continued
load_next_tracks port saved s = elim (next_request port saved s) [
  | err e ↦ failed e s
  | ok request ↦ continued saved (
      result_for_current_identity request.0 (page_reply request.1 saved request.0 request.2 s)
        (page_taken s))
]

-- The snapshot that is published while the port is asked.
unfoldable pub optimistic :
    EngineLibraryMutation → AuthIdentity → String → LibraryState → LibraryState
unfolding without_track
optimistic mutation identity track_id s =
    let pending = record s {
      library_pending_track_ids =
          if any (λ id. str_eq id track_id) s.library_pending_track_ids
          then s.library_pending_track_ids
          else s.library_pending_track_ids ++ track_id ∷ [];
      library_projection_identity = some identity;
    } in
    elim mutation [
      | remove_saved ↦ record pending { saved_tracks = without_track track_id s.saved_tracks }
      | unlike ↦ record pending { liked_tracks = without_track track_id s.liked_tracks }
      | save ↦ pending
      | like ↦ pending
    ]

-- What a change leaves, by its answer, from the state before it. The source's `unreachable!()`, an
-- item in the answer to a removal, leaves the state as it is; no port method gives it.
unfoldable pub changed :
    EngineLibraryMutation
    → AuthIdentity
    → LibraryState
    → EngineResult (Option EngineLibraryTrack)
    → LibraryState
    → LibraryState
unfolding upsert from_state
changed save identity before (ok (some item)) s = record s {
  saved_tracks = upsert item s.saved_tracks;
}
changed like identity before (ok (some item)) s = record s {
  liked_tracks = upsert item s.liked_tracks;
}
changed mutation identity before (ok _) s = s
changed mutation identity before (err e) s = failed e (
    if is_identity (from_state s.auth_state) identity
    then record s { saved_tracks = before.saved_tracks; liked_tracks = before.liked_tracks }
    else s)

unfoldable pub mutation_reply :
    LibraryPort
    → EngineLibraryMutation
    → AuthIdentity
    → String
    → LibraryState
    → Reply (Option EngineLibraryTrack)
mutation_reply port mutation identity track_id s = elim s.prefetched_mutation [
  | some answer ↦ record { answer = answer; auth = port.current_auth }
  | none ↦ port.change mutation identity track_id
]

-- The change by its owner, once the port has answered.
unfoldable pub mutate_as :
    LibraryPort → EngineLibraryMutation → AuthIdentity → String → LibraryState → LibraryState
unfolding optimistic mutation_reply result_for_current_identity changed without_id
mutate_as port mutation identity track_id s =
    let asked = optimistic mutation identity track_id s in
    let seen =
      result_for_current_identity identity (mutation_reply port mutation identity track_id asked)
        (record asked { prefetched_mutation = none }) in
    changed mutation identity s seen.0 (record seen.1 {
      library_pending_track_ids = without_id track_id seen.1.library_pending_track_ids;
    })

unfoldable pub mutate_library :
    Option LibraryPort → EngineLibraryMutation → String → LibraryState → LibraryState
unfolding library_owner mutate_as
mutate_library port mutation track_id s =
    if is_blank track_id
    then failed (engine_error invalid_input "library track id is required" false) s
    else elim (library_owner port s) [
      | err e ↦ failed e s
      | ok owner ↦ mutate_as owner.1 mutation owner.0 track_id s
    ]

-- `dispatch_library_command`; `none` for a command of another domain.
unfoldable pub dispatch_library_command :
    Option LibraryPort → EngineCommandType → LibraryState → Option LibraryState
unfolding list_tracks load_next_tracks mutate_library
dispatch_library_command port (EngineCommandType.list_saved_tracks page) s =
    some (list_tracks port true page s)
dispatch_library_command port EngineCommandType.load_next_saved_tracks_page s =
    some (load_next_tracks port true s)
dispatch_library_command port (EngineCommandType.list_liked_tracks page) s =
    some (list_tracks port false page s)
dispatch_library_command port EngineCommandType.load_next_liked_tracks_page s =
    some (load_next_tracks port false s)
dispatch_library_command port (EngineCommandType.save_track id) s =
    some (mutate_library port save id s)
dispatch_library_command port (EngineCommandType.remove_saved_track id) s =
    some (mutate_library port remove_saved id s)
dispatch_library_command port (EngineCommandType.like_track id) s =
    some (mutate_library port like id s)
dispatch_library_command port (EngineCommandType.unlike_track id) s =
    some (mutate_library port unlike id s)
dispatch_library_command port _ s = none
