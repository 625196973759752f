-- ===== src/Model/Wire/Table.antt =====
-- A `match` on a text whose arms are literals: the first arm that is equal, or the last one.
use media_app.Prelude.{
  String, ◌≡◌, List, [], ◌∷◌, str_eq, Bool-cases, inl, inr, if◌then◌else◌, eq_iff, sym, ◌∙◌,
}

module _ {ℓ} {A : Type ℓ} where
  unfoldable pub lookup_wire : List (String × A) → A → String → A
  lookup_wire [] otherwise value = otherwise
  lookup_wire ((wire, a) ∷ rest) otherwise value =
      if str_eq value wire then a else lookup_wire rest otherwise value

  -- Each arm gives a value whose wire name is the arm's literal.
  abbrev pub Names : (A → String) → List (String × A) → Type 0
  Names name [] = Unit {0}
  Names name ((wire, a) ∷ rest) = (name a ≡ wire) × Names name rest

  pub name-lookup_wire :
      (name : A → String) (table : List (String × A)) (otherwise : A) (value : String)
      → Names name table
      → name otherwise ≡ value
      → name (lookup_wire table otherwise value) ≡ value
  unfolding lookup_wire
  name-lookup_wire name [] otherwise value h o = o
  name-lookup_wire name ((wire, a) ∷ rest) otherwise value h o =
      elim (Bool-cases (str_eq value wire)) [
        | inl same ↦ rw same (h.0 ∙ sym ((eq_iff value wire).0 same))
        | inr other ↦ rw other (name-lookup_wire name rest otherwise value h.1 o)
      ]
