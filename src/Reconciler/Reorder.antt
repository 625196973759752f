-- ===== src/Reconciler/Reorder.antt =====
-- services/playlist_reconciler.rs: what `reorder` answers, and what it leaves as the proposal.
use media_app.Prelude.{ℕ, ◌<◌, String, ◌≡◌, ◌⊎◌, Option, none, some, List, length, arith}
use media_app.Model.Error.{EngineError, EngineResult, ok, err, conflict}
use media_app.Model.Playlist.{
  EnginePlaylistIdentity, EnginePlaylist, EnginePlaylistTrack, PlaylistReconciliation,
}
use media_app.Reconciler.{PlaylistPort, validate_reorder, reorder}
use media_app.Reconciler.Pages.{Rest, all_ids, Serves, list_all-pages}

module _ (port : PlaylistPort) (identity : EnginePlaylistIdentity) (playlist_id : String)
    (ordered : List String) (expected_revision : ℕ) (proposed : Option PlaylistReconciliation) where
  -- When the server aborts a valid reorder with a conflict, and then answers with the playlist and
  -- finitely many pages of its tracks, the conflict is returned and the proposal left behind holds
  -- the server's revision and its whole order beside the order that was asked for.
  pub reorder-conflict :
      (error : EngineError) (playlist : EnginePlaylist) (items : List EnginePlaylistTrack)
      (rest : Rest) (fuel : ℕ)
      → validate_reorder playlist_id ordered ≡ ok tt
      → port.reorder identity playlist_id ordered expected_revision ≡ err error
      → error.error_type ≡ conflict
      → port.get identity playlist_id ≡ ok playlist
      → Serves port identity playlist_id 0 none items rest
      → length rest < fuel
      → reorder port identity playlist_id fuel ordered expected_revision proposed
        ≡ some (
          some (record {
            playlist_id = playlist_id;
            expected_revision = expected_revision;
            server_revision = playlist.revision;
            server_membership_ids = all_ids items rest;
            proposed_membership_ids = ordered;
          }),
          err error,
        )
  unfolding reorder
  reorder-conflict error playlist items rest fuel v r c g s f =
      ground (arith, v, r, c, g, list_all-pages port identity playlist_id items rest fuel s f)

  -- A proposal that `reorder` leaves behind is the one from before, or it is for the very order that
  -- was asked for: then that order was valid, the server answered it with a conflict, and this
  -- conflict is what `reorder` returns.
  pub proposal_from_conflict :
      (fuel : ℕ) (q : PlaylistReconciliation) (result : EngineResult EnginePlaylist)
      → reorder port identity playlist_id fuel ordered expected_revision proposed
        ≡ some (some q, result)
      → (proposed ≡ some q)
        ⊎ ((q.playlist_id ≡ playlist_id)
            × (q.proposed_membership_ids ≡ ordered)
            × (q.expected_revision ≡ expected_revision)
            × (validate_reorder playlist_id ordered ≡ ok tt)
            × (port.reorder identity playlist_id ordered expected_revision ≡ result)
            × ((error : EngineError) × (result ≡ err error) × (error.error_type ≡ conflict)))
  unfolding reorder
  proposal_from_conflict fuel q result e = ground arith
