-- ===== src/Reconciler/Pages.antt =====
-- services/playlist_reconciler.rs: `list_all_membership_ids` collects every page, in order.
use media_app.Prelude.{
  ℕ, zero, suc, ◌+◌, ◌<◌, String, ◌≡◌, refl, ap, ◌∙◌, Option, none, some, List, [], ◌∷◌, ◌++◌,
  length, arith,
}
use mathlib.Core.List.{append_assoc}
use media_app.Model.Error.{ok}
use media_app.Model.Page.{EnginePageToken}
use media_app.Model.Playlist.{EnginePlaylistIdentity, EnginePlaylistTrack}
use media_app.Reconciler.{
  PlaylistPort, membership_ids, page_at, list_all_from, list_all_membership_ids,
}

-- The pages after the first, each with the token that leads to it.
abbrev pub Rest : Type 0
Rest = List (EnginePageToken × List EnginePlaylistTrack)

-- The ids of all pages, first page first.
abbrev pub all_ids : List EnginePlaylistTrack → Rest → List String
all_ids items [] = membership_ids items
all_ids items ((token, items') ∷ rest) = membership_ids items ++ all_ids items' rest

module _ (port : PlaylistPort) (identity : EnginePlaylistIdentity) (playlist_id : String) where
  -- From a call on, the server answers with the given pages, and the last has no next token.
  abbrev pub Serves : ℕ → Option EnginePageToken → List EnginePlaylistTrack → Rest → Type 0
  Serves call token items [] =
      page_at port identity playlist_id call token
      ≡ ok (record { items = items; next_page_token = none })
  Serves call token items ((next, items') ∷ rest) =
      (page_at port identity playlist_id call token
        ≡ ok (record { items = items; next_page_token = some next }))
      × Serves (call + 1) (some next) items' rest

  list_all_from-pages :
      (rest : Rest) (fuel call : ℕ) (token : Option EnginePageToken)
      (items : List EnginePlaylistTrack) (ids : List String)
      → Serves call token items rest
      → length rest < fuel
      → list_all_from port identity playlist_id fuel call token ids
        ≡ some (ok (ids ++ all_ids items rest))
  unfolding list_all_from
  list_all_from-pages rest zero call token items ids s f = absurd (omega arith)
  list_all_from-pages [] (suc fuel) call token items ids s f = rw (s, list_all_from) refl
  list_all_from-pages ((next, items') ∷ rest) (suc fuel) call token items ids s f =
      rw (s.0, list_all_from)
        (list_all_from-pages rest fuel (call + 1) (some next) items' (ids ++ membership_ids items)
            s.1 (omega arith)
          ∙ ap (λ l. some (ok l)) (append_assoc ids (membership_ids items) (all_ids items' rest)))

  -- If the server answers with finitely many pages, listing them gives the ids of all of them, in
  -- order, and ends as soon as the fuel exceeds the number of pages after the first.
  pub list_all-pages :
      (items : List EnginePlaylistTrack) (rest : Rest) (fuel : ℕ)
      → Serves 0 none items rest
      → length rest < fuel
      → list_all_membership_ids port identity playlist_id fuel ≡ some (ok (all_ids items rest))
  unfolding list_all_membership_ids
  list_all-pages items rest fuel s f = list_all_from-pages rest fuel 0 none items [] s f
