-- ===== src/Tests/Libraries.antt =====
-- Tests of the library, around one account and one track.
use media_app.Prelude.{◌≡◌, refl, true, false, none, some, [], ◌∷◌, String, any, str_eq, is_blank}
use media_app.Model.Auth.{AuthState}
use media_app.Model.Error.{EngineError, ok, err, engine_error, network_error}
use media_app.Model.Library.{EngineLibraryTrack, remove_saved}
use media_app.Library.{AuthIdentity, LibraryPort, LibraryState, from_state, library_login_required}
use media_app.Library.Commands.{load_next_tracks, mutate_as, mutation_reply, optimistic}
use media_app.Library.Unique.{AreDistinct, distinct, load_next_tracks-AreDistinct}
use media_app.Library.Owner.{mutate_as-foreign, mutate_as-rollback, mutate_as-settles}

abbrev logged_in : AuthState
logged_in =
    AuthState.authenticated
      (record {
        id = "ada";
        primary_email = "ada@x";
        status = "active";
        created_at_epoch_millis = 1;
      })
      (record {
        id = "s1";
        device_label = "car";
        created_at_epoch_millis = 1;
        last_used_at_epoch_millis = 2;
        expires_at_epoch_millis = 9;
        current = true;
      })

abbrev ada : AuthIdentity
ada = record { account_id = "ada"; session_id = "s1" }

abbrev pub saved_track : String → EngineLibraryTrack
saved_track id = record {
  relationship_id = id;
  track = record {
    id = id;
    title = id;
    artist = record { id = "a"; name = "a" };
    album = none;
    duration_millis = 1000;
    explicit = false;
    artwork = none;
    genres = [];
  };
  relationship_at_epoch_millis = 5;
}

abbrev two_saved : LibraryState
two_saved = record {
  auth_state = logged_in;
  last_error = none;
  saved_tracks = saved_track "dawn" ∷ saved_track "noon" ∷ [];
  saved_tracks_next_page_token = some (record { value = "p2" });
  liked_tracks = [];
  liked_tracks_next_page_token = none;
  library_pending_track_ids = [];
  library_projection_identity = some ada;
  saved_library_operation = some (record { auth_identity = ada; page_size = 2 });
  liked_library_operation = none;
  prefetched_page = none;
  prefetched_mutation = none;
}

abbrev offline : EngineError
offline = engine_error network_error "offline" false

-- A service that fails to change anything, and answers one track twice; `auth` is who is logged in
-- when it answers.
abbrev service : AuthState → LibraryPort
service auth = record {
  list_saved = λ identity page. record {
    answer = ok (record {
      items = saved_track "noon" ∷ saved_track "dusk" ∷ saved_track "dusk" ∷ [];
      next_page_token = none;
    });
    auth = auth;
  };
  list_liked = λ identity page. record { answer = err offline; auth = auth };
  change = λ mutation identity id. record { answer = err offline; auth = auth };
  current_auth = auth;
}

-- The next page adds "dusk" once.
next_page_adds_once :
    (load_next_tracks (some (service logged_in)) true two_saved).saved_tracks
    ≡ saved_track "dawn" ∷ saved_track "noon" ∷ saved_track "dusk" ∷ []
unfolding load_next_tracks is_blank
next_page_adds_once = refl

load_next_tracks-AreDistinct_example :
    AreDistinct (load_next_tracks (some (service logged_in)) true two_saved)
unfolding distinct
load_next_tracks-AreDistinct_example =
    load_next_tracks-AreDistinct (some (service logged_in)) true two_saved (refl, refl)

mutate_as-rollback_example :
    ((mutate_as (service logged_in) remove_saved ada "dawn" two_saved).saved_tracks
      ≡ two_saved.saved_tracks)
    × ((mutate_as (service logged_in) remove_saved ada "dawn" two_saved).liked_tracks ≡ [])
    × ((mutate_as (service logged_in) remove_saved ada "dawn" two_saved).last_error ≡ some offline)
unfolding mutation_reply optimistic from_state is_blank
mutate_as-rollback_example =
    mutate_as-rollback (service logged_in) remove_saved ada "dawn" two_saved offline refl refl

mutate_as-foreign_example :
    mutate_as (service AuthState.anonymous) remove_saved ada "dawn" two_saved ≡ record two_saved {
      auth_state = AuthState.anonymous;
      last_error = some library_login_required;
      saved_tracks = [];
      saved_tracks_next_page_token = none;
      liked_tracks = [];
      liked_tracks_next_page_token = none;
      library_pending_track_ids = [];
      library_projection_identity = none;
      saved_library_operation = none;
      liked_library_operation = none;
      prefetched_mutation = none;
    }
unfolding mutation_reply optimistic from_state is_blank
mutate_as-foreign_example =
    mutate_as-foreign (service AuthState.anonymous) remove_saved ada "dawn" two_saved refl

mutate_as-settles_example :
    (any
        (λ x. str_eq x "dawn")
        (mutate_as (service logged_in) remove_saved ada "dawn" two_saved).library_pending_track_ids
      ≡ false)
    × AreDistinct (mutate_as (service logged_in) remove_saved ada "dawn" two_saved)
unfolding distinct
mutate_as-settles_example =
    mutate_as-settles (service logged_in) remove_saved ada "dawn" two_saved (refl, refl)
