-- ===== src/Reconciler.antt =====
-- rust/engine/crates/app_core/src/services/playlist_reconciler.rs: `PlaylistReconciler`. The port is
-- an argument; the first argument of `list_tracks` is the number of the call, since the server's
-- answer may change between calls.
pub mod Validation
pub mod Pages
pub mod Reorder
use media_app.Prelude.{
  ℕ, zero, suc, ◌+◌, String, Bool, true, false, ◌&&◌, ◌||◌, Option, none, some, List, [], ◌∷◌, ◌++◌,
  map, any, str_eq, is_blank, if◌then◌else◌,
}
use media_app.Model.Error.{
  EngineError, EngineErrorType, EngineResult, ok, err, engine_error, invalid_input, conflict,
}
use media_app.Model.Page.{EnginePageRequest, EnginePageToken, EnginePagedResult}
use media_app.Model.Playlist.{
  EnginePlaylistIdentity, EnginePlaylist, EnginePlaylistTrack, PlaylistReconciliation,
}

-- The methods of `PlaylistPort` that the reconciler calls.
pub record PlaylistPort : Type 0 where
  pub reorder : EnginePlaylistIdentity → String → List String → ℕ → EngineResult EnginePlaylist
  pub get : EnginePlaylistIdentity → String → EngineResult EnginePlaylist
  pub list_tracks :
      ℕ
      → EnginePlaylistIdentity
      → String
      → EnginePageRequest
      → EngineResult (EnginePagedResult EnginePlaylistTrack)

-- `ids.all(|id| unique.insert(id))`, where `seen` is what the set holds.
unfoldable pub all_unique : List String → List String → Bool
all_unique seen [] = true
all_unique seen (id ∷ ids) = elim (any (str_eq id) seen) [
  | true ↦ false
  | false ↦ all_unique (id ∷ seen) ids
]

abbrev pub is_empty : List String → Bool
is_empty [] = true
is_empty (_ ∷ _) = false

unfoldable pub validate_reorder : String → List String → EngineResult (Unit {0})
validate_reorder playlist_id ordered_membership_ids =
    if is_blank playlist_id
      || (is_empty ordered_membership_ids || any is_blank ordered_membership_ids)
    then err (
        engine_error invalid_input "playlist reorder requires a complete non-empty membership order"
          false)
    else (if all_unique [] ordered_membership_ids
        then ok tt
        else err
            (engine_error invalid_input "playlist reorder membership ids must be unique" false))

abbrev pub membership_ids : List EnginePlaylistTrack → List String
membership_ids = map (λ item. item.membership_id)

-- `error.error_type == EngineErrorType::Conflict`.
abbrev pub is_conflict : EngineErrorType → Bool
is_conflict conflict = true
is_conflict _ = false

module _ (port : PlaylistPort) (identity : EnginePlaylistIdentity) (playlist_id : String) where
  -- The page that a call asks for.
  abbrev pub page_at :
      ℕ → Option EnginePageToken → EngineResult (EnginePagedResult EnginePlaylistTrack)
  page_at call token =
      port.list_tracks call identity playlist_id (record { page_size = 100; page_token = token })

  -- The loop of `list_all_membership_ids`, with fuel; `none` means that the fuel ran out.
  unfoldable pub list_all_from :
      ℕ → ℕ → Option EnginePageToken → List String → Option (EngineResult (List String))
  list_all_from zero call token ids = none
  list_all_from (suc fuel) call token ids = elim (page_at call token) [
    | err e ↦ some (err e)
    | ok page ↦
        let ids' = ids ++ membership_ids page.items in
        elim page.next_page_token [
          | none ↦ some (ok ids')
          | some next ↦ list_all_from fuel (call + 1) (some next) ids'
        ]
  ]

  unfoldable pub list_all_membership_ids : ℕ → Option (EngineResult (List String))
  unfolding list_all_from
  list_all_membership_ids fuel = list_all_from fuel 0 none []

  -- The arm of `reorder` for a conflict; the first component is what is proposed afterwards.
  unfoldable pub on_conflict :
      ℕ
      → List String
      → ℕ
      → EngineError
      → Option PlaylistReconciliation
      → Option (Option PlaylistReconciliation × EngineResult EnginePlaylist)
  unfolding list_all_membership_ids
  on_conflict fuel ordered expected_revision error proposed = elim (port.get identity playlist_id) [
    | err e ↦ some (proposed, err e)
    | ok playlist ↦ elim (list_all_membership_ids fuel) [
      | none ↦ none
      | some (err e) ↦ some (proposed, err e)
      | some (ok server_ids) ↦ some (
        some (record {
          playlist_id = playlist_id;
          expected_revision = expected_revision;
          server_revision = playlist.revision;
          server_membership_ids = server_ids;
          proposed_membership_ids = ordered;
        }),
        err error,
      )
    ]
  ]

  -- `reorder`; `proposed` is the content of the mutex.
  unfoldable pub reorder :
      ℕ
      → List String
      → ℕ
      → Option PlaylistReconciliation
      → Option (Option PlaylistReconciliation × EngineResult EnginePlaylist)
  unfolding validate_reorder on_conflict
  reorder fuel ordered expected_revision proposed = elim (validate_reorder playlist_id ordered) [
    | err e ↦ some (proposed, err e)
    | ok _ ↦ elim (port.reorder identity playlist_id ordered expected_revision) [
      | ok playlist ↦ some (none, ok playlist)
      | err error ↦
          if is_conflict error.error_type
          then on_conflict fuel ordered expected_revision error proposed
          else some (proposed, err error)
    ]
  ]
