-- ===== src/Tests/Reconciling.antt =====
-- Tests of the playlist reconciler.
use media_app.Prelude.{
  zero, suc, ◌≡◌, ◌≢◌, ◌↔◌, refl, String, false, none, some, List, [], ◌∷◌, All, is_blank, arith,
}
use media_app.Model.Error.{EngineError, EngineResult, ok, err, engine_error, conflict}
use media_app.Model.Page.{EnginePageToken}
use media_app.Model.Playlist.{
  EnginePlaylistIdentity, EnginePlaylist, EnginePlaylistTrack, PlaylistReconciliation,
}
use media_app.Reconciler.{
  PlaylistPort, all_unique, validate_reorder, list_all_membership_ids, reorder,
}
use media_app.Reconciler.Validation.{Distinct, validate_reorder_iff}
use media_app.Reconciler.Pages.{list_all-pages, all_ids}
use media_app.Reconciler.Reorder.{reorder-conflict}

abbrev mix : String
mix = "mix"

abbrev order : List String
order = "a" ∷ "b" ∷ []

abbrev identity : EnginePlaylistIdentity
identity = record { account_id = "ana"; session_id = "1" }

abbrev playlist : EnginePlaylist
playlist = record {
  id = "mix";
  name = "Mix";
  description = none;
  revision = 5;
  created_at_epoch_millis = 1;
  updated_at_epoch_millis = 2;
}

abbrev entry : String → EnginePlaylistTrack
entry id = record {
  membership_id = id;
  playlist_id = "mix";
  track = record {
    id = id;
    title = "";
    artist = record { id = ""; name = "" };
    album = none;
    duration_millis = 1;
    explicit = false;
    artwork = none;
    genres = [];
  };
  position = 0;
  added_at_epoch_millis = 0;
}

abbrev token : EnginePageToken
token = record { value = "next" }

abbrev stale : EngineError
stale = engine_error conflict "revision" false

-- A server with two pages, which has moved on to revision 5.
abbrev server : PlaylistPort
server = record {
  reorder = λ who id order revision. err stale;
  get = λ who id. ok playlist;
  list_tracks = λ call who id page. elim call [
    | zero ↦ ok (record { items = entry "b" ∷ []; next_page_token = some token })
    | suc n ↦ ok (record { items = entry "a" ∷ []; next_page_token = none })
  ];
}

abbrev conflicted : EngineResult EnginePlaylist
conflicted = err stale

abbrev proposal : PlaylistReconciliation
proposal = record {
  playlist_id = "mix";
  expected_revision = 4;
  server_revision = 5;
  server_membership_ids = "b" ∷ "a" ∷ [];
  proposed_membership_ids = "a" ∷ "b" ∷ [];
}

validate_reorder_iff_example : (validate_reorder mix order ≡ ok tt) ↔ (
    (is_blank mix ≡ false) × (order ≢ []) × All (λ id. is_blank id ≡ false) order × Distinct order)
validate_reorder_iff_example = validate_reorder_iff mix order

list_all-pages_example :
    list_all_membership_ids server identity mix 2
    ≡ some (ok (all_ids (entry "b" ∷ []) ((token, entry "a" ∷ []) ∷ [])))
list_all-pages_example =
    list_all-pages server identity mix (entry "b" ∷ []) ((token, entry "a" ∷ []) ∷ []) 2
      (refl, refl) (omega arith)

reorder-conflict_example :
    reorder server identity mix 2 order 4 none ≡ some (some proposal, err stale)
unfolding validate_reorder is_blank all_unique
reorder-conflict_example =
    reorder-conflict server identity mix order 4 none stale playlist (entry "b" ∷ [])
      ((token, entry "a" ∷ []) ∷ []) 2 refl refl refl refl (refl, refl) (omega arith)
