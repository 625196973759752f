-- ===== src/Library/Owner.antt =====
-- rust/engine/crates/app_core/src/engine/core/library.rs: what a change of the library leaves, whose
-- answer comes for its owner or for somebody else.
use media_app.Prelude.{
  ◌≡◌, refl, String, true, false, Option, none, some, List, [], ◌∷◌, any, str_eq, arith,
}
use media_app.Model.Error.{EngineError, EngineResult, ok, err}
use media_app.Model.Library.{
  EngineLibraryMutation, EngineLibraryTrack, save, remove_saved, like, unlike,
}
use media_app.Library.{
  AuthIdentity, LibraryPort, LibraryState, Reply, from_state, is_identity, library_login_required,
  result_for_current_identity, without_id,
}
use media_app.Library.Commands.{changed, mutate_as, mutation_reply, optimistic}
use media_app.Library.Unique.{
  AreDistinct, seen-AreDistinct, upsert-distinct, without_track-distinct,
}

-- What the port answers to a change, and for whom.
abbrev pub reply_to :
    LibraryPort
    → EngineLibraryMutation
    → AuthIdentity
    → String
    → LibraryState
    → Reply (Option EngineLibraryTrack)
reply_to port mutation identity id s =
    mutation_reply port mutation identity id (optimistic mutation identity id s)

-- A change that fails for its owner leaves the saved and the liked tracks as they were before it,
-- and the error.
pub mutate_as-rollback :
    (port : LibraryPort) (mutation : EngineLibraryMutation) (identity : AuthIdentity) (id : String)
    → (s : LibraryState) (e : EngineError)
    → is_identity (from_state (reply_to port mutation identity id s).auth) identity ≡ true
    → (reply_to port mutation identity id s).answer ≡ err e
    → ((mutate_as port mutation identity id s).saved_tracks ≡ s.saved_tracks)
      × ((mutate_as port mutation identity id s).liked_tracks ≡ s.liked_tracks)
      × ((mutate_as port mutation identity id s).last_error ≡ some e)
unfolding mutate_as result_for_current_identity changed
mutate_as-rollback port mutation identity id s e i h = ground arith

-- A change whose answer comes when somebody else is logged in, or nobody, leaves none of the
-- owner's tracks, tokens and pending changes, whatever the answer is, and asks for a login.
pub mutate_as-foreign :
    (port : LibraryPort) (mutation : EngineLibraryMutation) (identity : AuthIdentity) (id : String)
    → (s : LibraryState)
    → is_identity (from_state (reply_to port mutation identity id s).auth) identity ≡ false
    → (mutate_as port mutation identity id s ≡ record s {
      auth_state = (reply_to port mutation identity id s).auth;
      last_error = some library_login_required;
      saved_tracks = [];
      saved_tracks_next_page_token = none;
      liked_tracks = [];
      liked_tracks_next_page_token = none;
      library_pending_track_ids = [];
      library_projection_identity = none;
      saved_library_operation = none;
      liked_library_operation = none;
      prefetched_mutation = none;
    })
unfolding mutate_as result_for_current_identity changed without_id optimistic
mutate_as-foreign port save identity id s i = ground arith
mutate_as-foreign port remove_saved identity id s i = ground arith
mutate_as-foreign port like identity id s i = ground arith
mutate_as-foreign port unlike identity id s i = ground arith

without_id-absent :
    (id : String) (ids : List String) → any (λ x. str_eq x id) (without_id id ids) ≡ false
unfolding without_id
without_id-absent id [] = refl
without_id-absent id (x ∷ ids) = ground (arith, without_id-absent id ids)

changed-pending :
    (mutation : EngineLibraryMutation) (identity : AuthIdentity) (before s : LibraryState)
    → (answer : EngineResult (Option EngineLibraryTrack))
    → ((changed mutation identity before answer s).library_pending_track_ids
        ≡ s.library_pending_track_ids)
unfolding changed
changed-pending mutation identity before s answer = ground arith

changed-AreDistinct :
    (mutation : EngineLibraryMutation) (identity : AuthIdentity) (before s : LibraryState)
    → (answer : EngineResult (Option EngineLibraryTrack)) → AreDistinct before
    → AreDistinct s
    → AreDistinct (changed mutation identity before answer s)
unfolding changed
changed-AreDistinct save identity before s (ok (some item)) d t =
    (upsert-distinct item s.saved_tracks t.0, t.1)
changed-AreDistinct like identity before s (ok (some item)) d t =
    (t.0, upsert-distinct item s.liked_tracks t.1)
changed-AreDistinct mutation identity before s answer d t = ground arith

optimistic-AreDistinct :
    (mutation : EngineLibraryMutation) (identity : AuthIdentity) (id : String) (s : LibraryState)
    → AreDistinct s
    → AreDistinct (optimistic mutation identity id s)
unfolding optimistic
optimistic-AreDistinct save identity id s d = d
optimistic-AreDistinct like identity id s d = d
optimistic-AreDistinct remove_saved identity id s d =
    (without_track-distinct id s.saved_tracks d.0, d.1)
optimistic-AreDistinct unlike identity id s d = (d.0, without_track-distinct id s.liked_tracks d.1)

-- After a change of the library, whatever its answer, the track is not pending any more, and the
-- saved and the liked tracks still hold no relationship twice.
pub mutate_as-settles :
    (port : LibraryPort) (mutation : EngineLibraryMutation) (identity : AuthIdentity) (id : String)
    → (s : LibraryState) → AreDistinct s
    → (any (λ x. str_eq x id) (mutate_as port mutation identity id s).library_pending_track_ids
        ≡ false)
      × AreDistinct (mutate_as port mutation identity id s)
unfolding mutate_as
mutate_as-settles port mutation identity id s d =
    let reply = reply_to port mutation identity id s in
    let asked = record (optimistic mutation identity id s) { prefetched_mutation = none } in
    let seen = result_for_current_identity identity reply asked in
    let left = record seen.1 {
      library_pending_track_ids = without_id id seen.1.library_pending_track_ids;
    } in
    (
      rw (changed-pending mutation identity s left seen.0)
          (without_id-absent id seen.1.library_pending_track_ids),
      changed-AreDistinct mutation identity s left seen.0 d
          (seen-AreDistinct identity reply asked (optimistic-AreDistinct mutation identity id s d)),
    )
