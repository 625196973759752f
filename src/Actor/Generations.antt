-- ===== src/Actor/Generations.antt =====
-- rust/engine/crates/app_core/src/engine/actor/state.rs: the `bump_*_generation` methods, which make
-- the operations launched before stale, and the identities that an authentication state gives.
use media_app.Prelude.{ℕ, String, Option, none, some, saturating_add, if◌then◌else◌}
use media_app.Model.Auth.{AuthState}
use media_app.Model.Error.{answered}
use media_app.Model.History.{EngineHistoryIdentity, history_identity_of}
use media_app.Model.Library.{EngineLibraryIdentity, library_identity_of}
use media_app.Model.Playlist.{EnginePlaylistIdentity, playlist_identity_of}
use media_app.Actor.Operation.{DomainGenerations, EngineAccountIdentity}

-- `get().saturating_add(1)`.
abbrev pub next_generation : ℕ → ℕ
next_generation generation = saturating_add generation 1

unfoldable pub bump_identity_generations : DomainGenerations → DomainGenerations
bump_identity_generations g = record {
  account_generation = next_generation g.account_generation;
  search_generation = next_generation g.search_generation;
  playlist_generation = next_generation g.playlist_generation;
  history_generation = next_generation g.history_generation;
  library_generation = next_generation g.library_generation;
  playback_generation = next_generation g.playback_generation;
}

abbrev pub bump_search_generation : DomainGenerations → DomainGenerations
bump_search_generation g = record g { search_generation = next_generation g.search_generation }

abbrev pub bump_playlist_generation : DomainGenerations → DomainGenerations
bump_playlist_generation g = record g {
  playlist_generation = next_generation g.playlist_generation;
}

abbrev pub bump_history_generation : DomainGenerations → DomainGenerations
bump_history_generation g = record g { history_generation = next_generation g.history_generation }

abbrev pub bump_library_generation : DomainGenerations → DomainGenerations
bump_library_generation g = record g { library_generation = next_generation g.library_generation }

abbrev pub bump_playback_generation : DomainGenerations → DomainGenerations
bump_playback_generation g = record g {
  playback_generation = next_generation g.playback_generation;
}

unfoldable pub account_identity : AuthState → Option EngineAccountIdentity
account_identity (AuthState.authenticated account session) =
    some (record { account_id = account.id; session_id = session.id })
account_identity AuthState.anonymous = none
account_identity AuthState.login_required = none

unfoldable pub playlist_identity : AuthState → Option EnginePlaylistIdentity
unfolding account_identity playlist_identity_of
playlist_identity auth = elim (account_identity auth) [
  | none ↦ none
  | some identity ↦ answered (playlist_identity_of identity.account_id identity.session_id)
]

-- The account and the session of a current session.
unfoldable pub current_session_ids : AuthState → Option (String × String)
current_session_ids (AuthState.authenticated account session) =
    if session.current then some (account.id, session.id) else none
current_session_ids AuthState.anonymous = none
current_session_ids AuthState.login_required = none

unfoldable pub history_identity : AuthState → Option EngineHistoryIdentity
unfolding current_session_ids history_identity_of
history_identity auth = elim (current_session_ids auth) [
  | none ↦ none
  | some ids ↦ answered (history_identity_of ids.0 ids.1)
]

unfoldable pub library_identity : AuthState → Option EngineLibraryIdentity
unfolding current_session_ids library_identity_of
library_identity auth = elim (current_session_ids auth) [
  | none ↦ none
  | some ids ↦ answered (library_identity_of ids.0 ids.1)
]
