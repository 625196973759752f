-- ===== src/Reconciler/Validation.antt =====
-- services/playlist_reconciler.rs: which orders `validate_reorder` accepts.
use media_app.Prelude.{
  String, ◌≡◌, ◌≢◌, ◌↔◌, refl, Bool, true, false, List, [], ◌∷◌, All, any, str_eq, is_blank, eq_iff,
  arith, Bool-cases, inl, inr,
}
use media_app.Model.Error.{ok}
use media_app.Reconciler.{all_unique, is_empty, validate_reorder}

-- No two ids of the list are equal.
abbrev pub Distinct : List String → Type 0
Distinct [] = Unit {0}
Distinct (id ∷ ids) = All (λ j. j ≢ id) ids × Distinct ids

abbrev Unseen : List String → List String → Type 0
Unseen seen ids = All (λ id. any (str_eq id) seen ≡ false) ids

Unseen-cons :
    (seen : List String) (id : String) (ids : List String)
    → Unseen (id ∷ seen) ids ↔ (All (λ j. j ≢ id) ids × Unseen seen ids)
Unseen-cons seen id [] = (λ h. (tt, tt), λ h. tt)
Unseen-cons seen id (j ∷ ids) =
    let (there, back) = Unseen-cons seen id ids in
    (
      λ h. ((ground (arith, eq_iff j id), (there h.1).0), (ground arith, (there h.1).1)),
      λ h. (ground (arith, eq_iff j id), back (h.0.1, h.1.1)),
    )

all_unique_iff :
    (seen ids : List String) → (all_unique seen ids ≡ true) ↔ (Distinct ids × Unseen seen ids)
unfolding all_unique
all_unique_iff seen [] = (λ h. (tt, tt), λ h. refl)
all_unique_iff seen (id ∷ ids) = elim (Bool-cases (any (str_eq id) seen)) [
  | inl old ↦ (λ h. ground (arith, old), λ h. ground (arith, old))
  | inr new ↦
      let (there, back) = all_unique_iff (id ∷ seen) ids in
      let (apart, join) = Unseen-cons seen id ids in
      (
        λ h.
            let (distinct, unseen) = there (ground (arith, new)) in
            (((apart unseen).0, distinct), (new, (apart unseen).1)),
        λ h. rw (new, all_unique) (back (h.0.1, join (h.0.0, h.1.1))),
      )
]

All-any :
    (p : String → Bool) (ids : List String) → (any p ids ≡ false) ↔ All (λ id. p id ≡ false) ids
All-any p [] = (λ h. tt, λ h. refl)
All-any p (id ∷ ids) =
    let (there, back) = All-any p ids in
    (λ h. (ground arith, there (ground arith)), λ h. ground (arith, back h.1))

Unseen-nil : (ids : List String) → Unseen [] ids
Unseen-nil [] = tt
Unseen-nil (id ∷ ids) = (refl, Unseen-nil ids)

nonempty : (ids : List String) → ids ≢ [] → is_empty ids ≡ false
nonempty [] h = absurd (h refl)
nonempty (id ∷ ids) h = refl

-- A reorder is accepted exactly when the playlist's id is not blank and the order is not empty,
-- has no blank id and names no id twice.
pub validate_reorder_iff :
    (playlist_id : String) (ordered : List String)
    → (validate_reorder playlist_id ordered ≡ ok tt) ↔ (
        (is_blank playlist_id ≡ false)
        × (ordered ≢ [])
        × All (λ id. is_blank id ≡ false) ordered
        × Distinct ordered)
unfolding validate_reorder
validate_reorder_iff playlist_id ordered =
    let (unique, from_unique) = all_unique_iff [] ordered in
    let (full, from_full) = All-any is_blank ordered in
    (
      λ h. (ground arith, ground arith, full (ground arith), (unique (ground arith)).0),
      λ h.
          let once = from_unique (h.3, Unseen-nil ordered) in
          let whole = from_full h.2 in ground (arith, once, whole, nonempty ordered h.1),
    )
