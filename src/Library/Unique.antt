-- ===== src/Library/Unique.antt =====
-- rust/engine/crates/app_core/src/engine/core/library.rs: no relationship stands twice in the saved or
-- in the liked tracks.
use media_app.Prelude.{
  ◌≡◌, refl, String, Bool, true, false, not, ◌&&◌, ◌||◌, Option, List, [], ◌∷◌, ◌++◌, str_eq, inl,
  inr, Bool-cases, arith, eq_iff, if◌then◌else◌,
}
use media_app.Model.Error.{EngineResult, ok, err, EngineResult-cases}
use media_app.Model.Library.{EngineLibraryTrack}
use media_app.Library.{
  AuthIdentity, LibraryPort, LibraryState, Page, Reply, append_unique, has_relationship,
  result_for_current_identity, upsert, without_relationship, without_track,
}
use media_app.Library.Commands.{continued, load_next_tracks, next_request, page_reply, page_taken}

unfoldable pub distinct : List EngineLibraryTrack → Bool
unfolding has_relationship
distinct [] = true
distinct (x ∷ xs) = not (has_relationship x.relationship_id xs) && distinct xs

str_eq_sym : (a b : String) → str_eq a b ≡ str_eq b a
str_eq_sym a b = grind (arith, eq_iff)

has_relationship-snoc :
    (id : String) (xs : List EngineLibraryTrack) (y : EngineLibraryTrack)
    → (has_relationship id (xs ++ y ∷ []) ≡ (has_relationship id xs || str_eq y.relationship_id id))
unfolding has_relationship
has_relationship-snoc id [] y = ground arith
has_relationship-snoc id (x ∷ xs) y = ground (arith, has_relationship-snoc id xs y)

distinct-snoc :
    (xs : List EngineLibraryTrack) (y : EngineLibraryTrack)
    → distinct xs ≡ true
    → has_relationship y.relationship_id xs ≡ false
    → distinct (xs ++ y ∷ []) ≡ true
unfolding distinct has_relationship
distinct-snoc [] y d h = refl
distinct-snoc (x ∷ xs) y d h = ground (
  arith,
  distinct-snoc xs y,
  has_relationship-snoc x.relationship_id xs y,
  str_eq_sym y.relationship_id x.relationship_id,
)

-- Appending a page keeps the tracks distinct, whatever the page holds.
pub append_unique-distinct :
    (xs ys : List EngineLibraryTrack) → distinct xs ≡ true → distinct (append_unique xs ys) ≡ true
unfolding append_unique
append_unique-distinct xs [] d = d
append_unique-distinct xs (y ∷ ys) d = elim (Bool-cases (has_relationship y.relationship_id xs)) [
  | inl e ↦ rw (e, append_unique, if◌then◌else◌) (append_unique-distinct xs ys d)
  | inr e ↦
      rw (e, append_unique, if◌then◌else◌)
        (append_unique-distinct (xs ++ y ∷ []) ys (distinct-snoc xs y d e))
]

without_relationship-absent :
    (id : String) (xs : List EngineLibraryTrack)
    → has_relationship id (without_relationship id xs) ≡ false
unfolding has_relationship without_relationship
without_relationship-absent id [] = refl
without_relationship-absent id (x ∷ xs) = ground (arith, without_relationship-absent id xs)

has_relationship-without :
    (id r : String) (xs : List EngineLibraryTrack)
    → has_relationship r xs ≡ false
    → has_relationship r (without_relationship id xs) ≡ false
unfolding has_relationship without_relationship
has_relationship-without id r [] h = refl
has_relationship-without id r (x ∷ xs) h = ground (arith, has_relationship-without id r xs)

without_relationship-distinct :
    (id : String) (xs : List EngineLibraryTrack)
    → distinct xs ≡ true
    → distinct (without_relationship id xs) ≡ true
unfolding distinct without_relationship
without_relationship-distinct id [] d = refl
without_relationship-distinct id (x ∷ xs) d =
    ground
      (arith, without_relationship-distinct id xs, has_relationship-without id x.relationship_id xs)

pub upsert-distinct :
    (y : EngineLibraryTrack) (xs : List EngineLibraryTrack)
    → distinct xs ≡ true
    → distinct (upsert y xs) ≡ true
unfolding distinct upsert
upsert-distinct y xs d = ground (
  arith,
  without_relationship-distinct y.relationship_id xs d,
  without_relationship-absent y.relationship_id xs,
)

has_relationship-track :
    (id r : String) (xs : List EngineLibraryTrack)
    → has_relationship r xs ≡ false
    → has_relationship r (without_track id xs) ≡ false
unfolding has_relationship without_track
has_relationship-track id r [] h = refl
has_relationship-track id r (x ∷ xs) h = ground (arith, has_relationship-track id r xs)

pub without_track-distinct :
    (id : String) (xs : List EngineLibraryTrack)
    → distinct xs ≡ true
    → distinct (without_track id xs) ≡ true
unfolding distinct without_track
without_track-distinct id [] d = refl
without_track-distinct id (x ∷ xs) d =
    ground (arith, without_track-distinct id xs, has_relationship-track id x.relationship_id xs)

abbrev pub AreDistinct : LibraryState → Type 0
AreDistinct s = (distinct s.saved_tracks ≡ true) × (distinct s.liked_tracks ≡ true)

pub seen-AreDistinct :
    {A : Type 0} (identity : AuthIdentity) (reply : Reply A) (s : LibraryState)
    → AreDistinct s
    → AreDistinct (result_for_current_identity identity reply s).1
unfolding result_for_current_identity distinct
seen-AreDistinct identity reply s d = ground arith

continued-AreDistinct :
    (saved : Bool) (answer : EngineResult Page) (s : LibraryState)
    → AreDistinct s
    → AreDistinct (continued saved (answer, s))
unfolding continued
continued-AreDistinct saved (err e) s d = d
continued-AreDistinct true (ok page) s d =
    (append_unique-distinct s.saved_tracks page.items d.0, d.1)
continued-AreDistinct false (ok page) s d =
    (d.0, append_unique-distinct s.liked_tracks page.items d.1)

-- Where no relationship is listed twice, the next page of the saved or of the liked tracks brings none
-- in twice, whatever the page holds and whoever is logged in when it comes.
pub load_next_tracks-AreDistinct :
    (port : Option LibraryPort) (saved : Bool) (s : LibraryState)
    → AreDistinct s
    → AreDistinct (load_next_tracks port saved s)
unfolding load_next_tracks distinct
load_next_tracks-AreDistinct port saved s d =
    elim (EngineResult-cases (next_request port saved s)) [
      | inr (e, h) ↦ rw (h, load_next_tracks) d
      | inl (request, h) ↦
          let reply = page_reply request.1 saved request.0 request.2 s in
          let seen = result_for_current_identity request.0 reply (page_taken s) in
          rw (h, load_next_tracks)
            (continued-AreDistinct saved seen.0 seen.1
              (seen-AreDistinct request.0 reply (page_taken s) d))
    ]
