-- ===== src/Core/Value/Merging.antt =====
-- What a row holds after changes are merged over it.
use crm_starter.Prelude.{
  ◌≡◌, refl, ◌∙◌, String, none, some, [], ◌∷◌, arith, Bool-cases, inl, inr, str_eq, All, true,
  false,
}
use package.text.Mathlib.TextEquality.{eq_iff}
use crm_starter.Prelude.Assoc
use crm_starter.Prelude.Assoc.{lookup-insert, IsDict}
use crm_starter.Core.Value.{Value, Row, get, merge_rows}

-- A column that the changes do not name keeps its value.
pub get-merge_other :
    (row changes : Row) (field : String)
    → get changes field ≡ none
    → get (merge_rows row changes) field ≡ get row field
unfolding merge_rows Assoc.lookup
get-merge_other row [] field h = refl
get-merge_other row ((name, v) ∷ changes) field h = elim (Bool-cases (str_eq name field)) [
  | inl e ↦ absurd (ground (arith, h, e))
  | inr e ↦
      get-merge_other (Assoc.insert name v row) changes field (rw e at h)
      ∙ (lookup-insert name field v row ∙ rw e refl)
]

-- A column that the changes name once has their value.
pub get-merge_new :
    (row changes : Row) (field : String) (new : Value)
    → IsDict changes
    → get changes field ≡ some new
    → get (merge_rows row changes) field ≡ some new
unfolding merge_rows Assoc.lookup
get-merge_new row [] field new u h = absurd (ground (arith, h))
get-merge_new row ((name, v) ∷ changes) field new u h = elim (Bool-cases (str_eq name field)) [
  | inl e ↦
      get-merge_other (Assoc.insert name v row) changes field (absent name field changes e u.0)
      ∙ (lookup-insert name field v row ∙ rw e (rw e at h))
  | inr e ↦ get-merge_new (Assoc.insert name v row) changes field new u.1 (rw e at h)
]
  where
    absent :
        (name field : String) (rest : Row)
        → str_eq name field ≡ true
        → All (λ e. str_eq name e.0 ≡ false) rest
        → get rest field ≡ none
    absent name field [] e a = refl
    absent name field ((k, w) ∷ rest) e a =
        ground (arith, absent name field rest, eq_iff name field, eq_iff name k, eq_iff k field)
