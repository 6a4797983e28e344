-- ===== src/Resources/Policy/Owners.antt =====
-- The rows that an owner may change are rows that the owner sees.
use crm_starter.Prelude.{
  ◌≡◌, ◌∙◌, refl, true, ◌||◌, some, arith, inl, inr, Bool-cases, Option-cases, String,
}
use crm_starter.Core.Value.{Runtime, Row, Value, Text, text, py_eq, get}
use crm_starter.Core.Query.{Op, scalar, Condition}
use crm_starter.Providers.Local.{match, match_tree, match_condition, match_value}
use crm_starter.Resources.Policy.{
  Identity, has_role, update, owner_policy, OwnerSettings, owns, owned_by, attribute,
}

match_value-owner :
    (rt : Runtime) (v : Value) (t : Text)
    → py_eq v (text t) ≡ true
    → match_value rt Op.eq v (scalar (text t)) ≡ true
unfolding match_value
match_value-owner rt v t h = simp h refl

owns-get :
    (field : String) (t : Text) (row : Row)
    → owns field t row ≡ true
    → (v : Value) × (get row field ≡ some v) × (py_eq v (text t) ≡ true)
unfolding owns py_eq
owns-get field t row h = elim (Option-cases (get row field)) [
  | inl absent ↦ absurd (ground (arith, absent, h))
  | inr (v, there) ↦ (v, there, ground (arith, there, h))
]

match_condition-there :
    (rt : Runtime) (row : Row) (c : Condition) (v : Value)
    → get row c.field ≡ some v
    → match_condition rt row c ≡ match_value rt c.op v c.value
unfolding match_condition
match_condition-there rt row c v h = simp (h, match_condition) refl

match-owned_by :
    (rt : Runtime) (field : String) (t : Text) (row : Row)
    → owns field t row ≡ true
    → match rt row (some (owned_by field t)) ≡ true
unfolding match_tree
match-owned_by rt field t row h =
    let (v, there, same) = owns-get field t row h in
    match_condition-there rt row _ v there ∙ match_value-owner rt v t same

-- A row that an ownership policy lets its caller update is in the scope of the caller's reads.
pub owner_sees_what_it_updates :
    (rt : Runtime) (s : OwnerSettings) (identity : Identity) (row : Row)
    → (owner_policy s).allows update identity (some row) ≡ true
    → match rt row ((owner_policy s).scope identity) ≡ true
owner_sees_what_it_updates rt s identity row h = elim (Bool-cases identity.is_authenticated) [
  | inr out ↦ absurd (ground (arith, out, h))
  | inl signed ↦ elim (Bool-cases (s.read_all || has_role identity s.bypass_roles)) [
    | inl free ↦ simp (signed, free) refl
    | inr bound ↦
        simp (signed, bound)
          (match-owned_by rt s.owner_field (attribute s.identity_attr identity) row
            (ground (arith, signed, bound, h)))
  ]
]
