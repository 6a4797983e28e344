-- ===== src/Web/Filters/Safety.antt =====
-- A query string filters by nothing that the caller may not see.
use crm_starter.Prelude.{
  ◌≡◌, refl, true, ◌&&◌, not, Option, none, some, List, [], ◌∷◌, ◌++◌, map, somes, All, Bool-cases,
  Option-cases, inl, inr, and-eq-true, ◌⊎◌, drop, length,
}
use mathlib.Core.Path.{subst}
use crm_starter.Core.Value.{Text, Runtime, text_eq}
use crm_starter.Core.Value.Equality.{text_eq→eq}
use crm_starter.Core.Results.{Result-cases}
use crm_starter.Core.Texts.{partition_underscores}
use crm_starter.Core.Query.{
  Op, Operand, scalar, sequence, Condition, Filter, and_, of_list, collapse, conj, make_condition,
  is_valid_condition, iter_conditions, iter_children, conditions_of,
}
use crm_starter.Providers.Local.{is_prefix}
use crm_starter.Auth.Passwords.{codes, is_empty}
use crm_starter.Resources.Policy.{Identity}
use crm_starter.Web.Filters.{
  Field, Resource, Calendar, prefix, parse_op, is_unary, supports, is_visible, field_named,
}
use crm_starter.Web.Filters.Parsing.{
  as_filter, condition, parse_value, parse_condition, target, parse_spec, parse_pair, parse_filters,
}

All-append :
    (P : Condition → Type 0) (xs ys : List Condition) → All P xs → All P ys → All P (xs ++ ys)
All-append P [] ys h k = k
All-append P (x ∷ xs) ys h k = (h.0, All-append P xs ys h.1 k)

children-All :
    (P : Condition → Type 0) (fs : List Filter)
    → All (λ f. All P (iter_conditions f)) fs
    → All P (iter_children (of_list fs))
unfolding iter_children
children-All P [] h = tt
children-All P (f ∷ fs) h = All-append P _ _ h.0 (children-All P fs h.1)

somes-All :
    (P : Condition → Type 0) (os : List (Option Filter))
    → All (λ o. All P (conditions_of o)) os
    → All (λ f. All P (iter_conditions f)) (somes os)
somes-All P [] h = tt
somes-All P (none ∷ os) h = somes-All P os h.1
somes-All P (some f ∷ os) h = (h.0, somes-All P os h.1)

collapse-All :
    (P : Condition → Type 0) (fs : List Filter)
    → All (λ f. All P (iter_conditions f)) fs
    → All P (conditions_of (collapse conj fs))
unfolding iter_conditions
collapse-All P [] h = tt
collapse-All P (f ∷ []) h = h.0
collapse-All P (f ∷ g ∷ fs) h = children-All P (f ∷ g ∷ fs) h

-- What holds of the conditions of each part holds of those of their conjunction.
and_-All :
    (P : Condition → Type 0) (os : List (Option Filter))
    → All (λ o. All P (conditions_of o)) os
    → All P (conditions_of (and_ os))
unfolding and_
and_-All P os h = collapse-All P (somes os) (somes-All P os h)

some-field : {f g : Field} → some f ≡ some g → f ≡ g
some-field h = cc

pub name-found :
    (name : Text) (fs : List Field) (f : Field) → field_named name fs ≡ some f → codes f.name ≡ name
unfolding field_named
name-found name [] f h = cc
name-found name (g ∷ fs) f h = elim (Bool-cases (text_eq (codes g.name) name)) [
  | inl e ↦ subst (λ x. codes x.name ≡ name) (some-field (rw e at h)) (text_eq→eq _ _ e)
  | inr e ↦ name-found name fs f (rw e at h)
]

module _ (rt : Runtime) (c : Calendar) (r : Resource) (identity : Identity) where
  -- The condition is on a field of the resource that the caller may see, by an operator that the
  -- field supports.
  abbrev pub IsAllowed : Condition → Type 0
  IsAllowed k =
      (f : Field) × (field_named (codes f.name) r.fields ≡ some f)
      × (k.field ≡ f.name)
      × (is_visible identity f ≡ true)
      × (supports f.supported_ops k.op ≡ true)

  abbrev IsTarget : Field → Op → Type 0
  IsTarget f op =
      (field_named (codes f.name) r.fields ≡ some f)
      × (is_visible identity f ≡ true)
      × (supports f.supported_ops op ≡ true)

  target-IsTarget :
      (name operator : Text)
      → (target rt c r identity name operator ≡ none)
        ⊎ ((f : Field) × (op : Op) × (target rt c r identity name operator ≡ some (f, op))
            × IsTarget f op)
  unfolding target
  target-IsTarget name operator = elim (Option-cases (field_named name r.fields)) [
    | inl e ↦ inl (rw (e, target) refl)
    | inr (f, e) ↦ elim (Option-cases (parse_op operator)) [
      | inl p ↦ inl (rw (e, target) (rw p refl))
      | inr (op, p) ↦ elim (Bool-cases (is_visible identity f && supports f.supported_ops op)) [
        | inl b ↦
            let (visible, supported) =
              and-eq-true (is_visible identity f) (supports f.supported_ops op) b in
            inr (
              f,
              op,
              rw (e, target) (rw p (rw b refl)),
              (rw (name-found name r.fields f e) e, visible, supported),
            )
        | inr b ↦ inl (rw (e, target) (rw p (rw b refl)))
      ]
    ]
  ]

  made-IsAllowed :
      (f : Field) (op : Op) (v : Operand)
      → IsTarget f op
      → All IsAllowed (conditions_of (as_filter (make_condition f.name op v)))
  unfolding iter_conditions make_condition
  made-IsAllowed f op v t = elim (Bool-cases (is_valid_condition op v)) [
    | inl e ↦ rw e ((f, t.0, refl, t.1, t.2), tt)
    | inr e ↦ rw e tt
  ]

  condition-IsAllowed :
      (f : Field) (op : Op) (v : Option Operand)
      → IsTarget f op
      → All IsAllowed (conditions_of (condition rt c r identity f op v))
  unfolding iter_conditions
  condition-IsAllowed f op none t = elim (Bool-cases (is_unary op)) [
    | inl e ↦ rw e ((f, t.0, refl, t.1, t.2), tt)
    | inr e ↦ rw e tt
  ]
  condition-IsAllowed f op (some (sequence [])) t = tt
  condition-IsAllowed f op (some (sequence (v ∷ vs))) t = made-IsAllowed f op (sequence (v ∷ vs)) t
  condition-IsAllowed f op (some (scalar v)) t = made-IsAllowed f op (scalar v) t

  parse_condition-IsAllowed :
      (f : Field) (op : Op) (raw : Text)
      → IsTarget f op
      → All IsAllowed (conditions_of (parse_condition rt c r identity f op raw))
  unfolding parse_condition
  parse_condition-IsAllowed f op raw t = elim (Bool-cases (is_empty raw && not (is_unary op))) [
    | inl e ↦ rw e tt
    | inr e ↦ elim (Result-cases (parse_value rt c r identity f op raw)) [
      | inl (v, p) ↦ rw e (rw (p, parse_condition) (condition-IsAllowed f op v t))
      | inr (x, p) ↦ rw e (rw (p, parse_condition) tt)
    ]
  ]

  spec-IsAllowed :
      (spec : Text × Text) (raw : Text)
      → All IsAllowed (conditions_of (parse_spec rt c r identity spec raw))
  spec-IsAllowed (name, operator) raw = elim (target-IsTarget name operator) [
    | inl e ↦ rw (e, parse_spec) tt
    | inr (f, op, e, t) ↦ rw (e, parse_spec) (parse_condition-IsAllowed f op raw t)
  ]

  pairs-IsAllowed :
      (items : List (Text × Text))
      → All (λ o. All IsAllowed (conditions_of o)) (map (parse_pair rt c r identity) items)
  unfolding parse_pair
  pairs-IsAllowed [] = tt
  pairs-IsAllowed ((key, raw) ∷ items) = elim (Bool-cases (is_prefix prefix key)) [
    | inl e ↦ (
      rw e (spec-IsAllowed (partition_underscores (drop (length prefix) key)) raw),
      pairs-IsAllowed items,
    )
    | inr e ↦ (rw e tt, pairs-IsAllowed items)
  ]

  -- Whatever a query string says, each condition of the filter that is read from it is on a field
  -- of the resource that the caller may see, by an operator that the field supports.
  pub parse_filters-IsAllowed :
      (items : List (Text × Text))
      → All IsAllowed (conditions_of (parse_filters rt c r identity items))
  unfolding parse_filters
  parse_filters-IsAllowed items =
      and_-All IsAllowed (map (parse_pair rt c r identity) items) (pairs-IsAllowed items)
