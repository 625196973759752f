-- ===== src/Library.antt =====
-- rust/engine/crates/app_core/src/engine/core/library.rs: the saved and the liked tracks of an account.
-- The state is what these methods read and change of the engine and of the draft snapshot; a port
-- method answers with its result and with what the authentication provider says after it.
pub mod Commands
pub mod Unique
pub mod Owner
use media_app.Prelude.{
  ℕ, String, Bool, true, false, not, ◌&&◌, ◌||◌, Option, none, some, List, [], ◌∷◌, ◌++◌, any,
  str_eq, is_blank, if◌then◌else◌,
}
use media_app.Model.Auth.{AuthState}
use media_app.Model.Error.{
  EngineError, EngineErrorType, EngineResult, ok, err, engine_error, invalid_input, not_found,
  failed_precondition, login_required, ◌>>=◌,
}
use media_app.Model.Library.{
  EngineLibraryIdentity, EngineLibraryMutation, EngineLibraryTrack, save, remove_saved, like,
  unlike,
}
use media_app.Model.Page.{EnginePageRequest, EnginePagedResult, EnginePageToken}

pub record AuthIdentity : Type 0 where
  pub account_id : String
  pub session_id : String

-- `AuthIdentity::from_state`: the session must be the current one, and nothing blank.
unfoldable pub from_state : AuthState → Option AuthIdentity
from_state (AuthState.authenticated account session) =
    if not (is_blank account.id) && (not (is_blank session.id) && session.current)
    then some (record { account_id = account.id; session_id = session.id })
    else none
from_state AuthState.anonymous = none
from_state AuthState.login_required = none

abbrev pub same_identity : AuthIdentity → AuthIdentity → Bool
same_identity a b = str_eq a.account_id b.account_id && str_eq a.session_id b.session_id

-- `a == Some(b)`.
abbrev pub is_identity : Option AuthIdentity → AuthIdentity → Bool
is_identity none expected = false
is_identity (some current) expected = same_identity current expected

pub record LibraryPageOperation : Type 0 where
  pub auth_identity : AuthIdentity
  pub page_size : ℕ

pub record LibraryState : Type 0 where
  pub auth_state : AuthState
  pub last_error : Option EngineError
  pub saved_tracks : List EngineLibraryTrack
  pub saved_tracks_next_page_token : Option EnginePageToken
  pub liked_tracks : List EngineLibraryTrack
  pub liked_tracks_next_page_token : Option EnginePageToken
  pub library_pending_track_ids : List String
  pub library_projection_identity : Option AuthIdentity
  pub saved_library_operation : Option LibraryPageOperation
  pub liked_library_operation : Option LibraryPageOperation
  pub prefetched_page : Option (EngineResult (EnginePagedResult EngineLibraryTrack))
  pub prefetched_mutation : Option (EngineResult (Option EngineLibraryTrack))

-- An answer, and the authentication state when it has come.
pub record Reply (A : Type 0) : Type 0 where
  pub answer : EngineResult A
  pub auth : AuthState

abbrev pub Page : Type 0
Page = EnginePagedResult EngineLibraryTrack

-- `LibraryPort` and the authentication provider. `change` is the method of the mutation, its item
-- under `Some` or `None` for the `()` of a removal, and `current_auth` is what the provider says where
-- a prefetched answer is used.
pub record LibraryPort : Type 0 where
  pub list_saved : AuthIdentity → EnginePageRequest → Reply Page
  pub list_liked : AuthIdentity → EnginePageRequest → Reply Page
  pub change : EngineLibraryMutation → AuthIdentity → String → Reply (Option EngineLibraryTrack)
  pub current_auth : AuthState

abbrev pub library_login_required : EngineError
library_login_required =
    engine_error login_required "library operation requires the current authenticated session" false

abbrev pub precondition : String → EngineError
precondition message = engine_error failed_precondition message false

-- `retain(|item| item.track.id != track_id)` and `retain(|id| id != track_id)`.
unfoldable pub without_track : String → List EngineLibraryTrack → List EngineLibraryTrack
without_track id [] = []
without_track id (x ∷ xs) =
    let kept = without_track id xs in if str_eq x.track.id id then kept else x ∷ kept

unfoldable pub without_id : String → List String → List String
without_id id [] = []
without_id id (x ∷ xs) = let kept = without_id id xs in if str_eq x id then kept else x ∷ kept

unfoldable pub without_relationship : String → List EngineLibraryTrack → List EngineLibraryTrack
without_relationship id [] = []
without_relationship id (x ∷ xs) =
    let kept = without_relationship id xs in if str_eq x.relationship_id id then kept else x ∷ kept

unfoldable pub has_relationship : String → List EngineLibraryTrack → Bool
has_relationship id [] = false
has_relationship id (x ∷ xs) = str_eq x.relationship_id id || has_relationship id xs

unfoldable pub upsert : EngineLibraryTrack → List EngineLibraryTrack → List EngineLibraryTrack
unfolding without_relationship
upsert item items = item ∷ without_relationship item.relationship_id items

unfoldable pub append_unique :
    List EngineLibraryTrack → List EngineLibraryTrack → List EngineLibraryTrack
unfolding has_relationship
append_unique items [] = items
append_unique items (item ∷ incoming) =
    append_unique
      (if has_relationship item.relationship_id items then items else items ++ item ∷ []) incoming

abbrev pub clear_library_projection : LibraryState → LibraryState
clear_library_projection s = record s {
  saved_tracks = [];
  saved_tracks_next_page_token = none;
  liked_tracks = [];
  liked_tracks_next_page_token = none;
  library_pending_track_ids = [];
}

-- `library_result_for_current_identity`: the answer counts only for the identity that asked.
unfoldable pub result_for_current_identity :
    {A : Type 0} → AuthIdentity → Reply A → LibraryState → EngineResult A × LibraryState
unfolding from_state
result_for_current_identity expected reply s =
    let seen = record s { auth_state = reply.auth } in
    if is_identity (from_state reply.auth) expected then (reply.answer, seen) else (
      err library_login_required,
      record (clear_library_projection seen) {
        library_projection_identity = none;
        saved_library_operation = none;
        liked_library_operation = none;
      },
    )

abbrev pub failed : EngineError → LibraryState → LibraryState
failed error s = record s { last_error = some error }

-- `library_context`, without the port.
unfoldable pub library_owner :
    Option LibraryPort → LibraryState → EngineResult (AuthIdentity × LibraryPort)
unfolding from_state
library_owner port s = elim (from_state s.auth_state) [
  | none ↦ err library_login_required
  | some identity ↦ elim port [
    | none ↦ err (precondition "library service is not configured")
    | some p ↦ ok (identity, p)
  ]
]
