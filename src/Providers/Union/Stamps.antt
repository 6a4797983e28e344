-- ===== src/Providers/Union/Stamps.antt =====
-- What a test, a search and a sort see of a row that the union has stamped.
use crm_starter.Prelude.{
  ◌≡◌, ◌∙◌, refl, ap, sym, Bool, true, not, ◌&&◌, ◌||◌, String, Option, none, some, List, [], ◌∷◌,
  arith, all, Bool-cases, inl, inr, str_eq, if◌then◌else◌, all-append,
}
use mathlib.Core.Path.{ap₂}
use package.text.Mathlib.TextEquality.{eq_iff}
use crm_starter.Prelude.Assoc
use crm_starter.Prelude.Assoc.{lookup-insert}
use crm_starter.Core.Value.{Text, Value, text, Runtime, Row, get}
use crm_starter.Core.Query.{
  Condition, Filter, Filters, cond, group, not_of, conj, disj, nil, cons, iter_conditions,
  iter_children, conditions_of,
}
use crm_starter.Providers.Local.{
  match, is_null, as_text, match_missing, match_value, match_condition, match_tree, match_all,
  match_any, hit, search_terms, haystack_parts,
}
use crm_starter.Providers.Local.Commute.{found, hit_any}
use crm_starter.Providers.Union.{Union, stamp}

pub str_eq_sym : (a b : String) → str_eq a b ≡ str_eq b a
str_eq_sym a b = ground (arith, eq_iff a b, eq_iff b a)

-- A column that the stamp does not prefix.
abbrev pub spared : Union → String → Bool
spared u field = not (u.prefixed && str_eq u.pk_field field)

-- A column that the stamp does not write.
abbrev pub unwritten : Union → String → Bool
unwritten u field = not (str_eq u.source_field field) && spared u field

-- What one column adds to the text that a search looks in.
abbrev part : Runtime → Option Value → List Text → List Text
part rt none rest = rest
part rt (some v) rest = if is_null v then rest else rt.casefold (as_text rt v) ∷ rest

haystack_parts-cons :
    (rt : Runtime) (f : String) (fs : List String) (row : Row)
    → haystack_parts rt (f ∷ fs) row ≡ part rt (get row f) (haystack_parts rt fs row)
haystack_parts-cons rt f fs row = go (get row f)
  where
    go :
        (o : Option Value)
        → ◌≡◌ {A = List Text}
            (elim o [
              | none ↦ haystack_parts rt fs row
              | some v ↦
                  if is_null v
                  then haystack_parts rt fs row
                  else rt.casefold (as_text rt v) ∷ haystack_parts rt fs row
            ])
            (part rt o (haystack_parts rt fs row))
    go none = refl
    go (some v) = refl

module _ (rt : Runtime) (u : Union) (l : Text) (row : Row) where
  pub get-stamp :
      (field : String)
      → spared u field ≡ true
      → get (stamp rt u l row) field
        ≡ (if str_eq u.source_field field then some (text l) else get row field)
  unfolding stamp
  get-stamp field h = elim (Bool-cases u.prefixed) [
    | inl e ↦ rw e (
        lookup-insert u.pk_field field _ (Assoc.insert u.source_field (text l) row)
        ∙ ground (arith, e, h, lookup-insert u.source_field field (text l) row))
    | inr e ↦ rw e (lookup-insert u.source_field field (text l) row)
  ]

  get-stamp-unwritten :
      (field : String) → unwritten u field ≡ true → get (stamp rt u l row) field ≡ get row field
  get-stamp-unwritten field h = ground (arith, h, get-stamp field)

  same_condition :
      (c : Condition)
      → unwritten u c.field ≡ true
      → match_condition rt (stamp rt u l row) c ≡ match_condition rt row c
  unfolding match_condition
  same_condition c h =
      ap (λ o. elim o [ none ↦ match_missing c.op | some v ↦ match_value rt c.op v c.value ])
        (get-stamp-unwritten c.field h)

  same_parts :
      (fields : List String)
      → all (unwritten u) fields ≡ true
      → haystack_parts rt fields (stamp rt u l row) ≡ haystack_parts rt fields row
  same_parts [] h = refl
  same_parts (f ∷ fs) h =
      haystack_parts-cons rt f fs (stamp rt u l row)
      ∙ ap₂ (part rt) (get-stamp-unwritten f (ground (arith, h)))
          (same_parts fs (ground (arith, h)))
      ∙ sym (haystack_parts-cons rt f fs row)

  same_hit :
      (fields : List String) (terms : List Text)
      → all (unwritten u) fields ≡ true
      → hit rt fields terms (stamp rt u l row) ≡ hit rt fields terms row
  unfolding hit
  same_hit fields terms h = rw (same_parts fields h) refl

  -- A search of columns that the stamp does not write.
  pub found-stamp :
      (term : Option Text) (fields : List String)
      → all (unwritten u) fields ≡ true
      → found rt term fields (stamp rt u l row) ≡ found rt term fields row
  found-stamp term fields h = go (search_terms rt term fields)
    where
      go : (ws : List Text) → hit_any rt fields ws (stamp rt u l row) ≡ hit_any rt fields ws row
      go [] = refl
      go (w ∷ ws) = same_hit fields (w ∷ ws) h

  mutual
    unfolding match_tree iter_conditions

    same_tree :
        (f : Filter)
        → all (λ c. unwritten u c.field) (iter_conditions f) ≡ true
        → match_tree rt (stamp rt u l row) f ≡ match_tree rt row f
    same_tree (cond c) h = same_condition c (ground (arith, h))
    same_tree (not_of f) h = ap not (same_tree f h)
    same_tree (group conj fs) h = (same_trees fs h).0
    same_tree (group disj fs) h = (same_trees fs h).1

    same_trees :
        (fs : Filters)
        → all (λ c. unwritten u c.field) (iter_children fs) ≡ true
        → (match_all rt (stamp rt u l row) fs ≡ match_all rt row fs)
          × (match_any rt (stamp rt u l row) fs ≡ match_any rt row fs)
    same_trees nil h = (refl, refl)
    same_trees (cons f fs) h =
        let k = all-append (λ c. unwritten u c.field) (iter_conditions f) (iter_children fs) h in
        (
          ap₂ ◌&&◌ (same_tree f k.0) (same_trees fs k.1).0,
          ap₂ ◌||◌ (same_tree f k.0) (same_trees fs k.1).1,
        )

  -- A test of columns that the stamp does not write.
  pub match-stamp :
      (f : Option Filter)
      → all (λ c. unwritten u c.field) (conditions_of f) ≡ true
      → match rt (stamp rt u l row) f ≡ match rt row f
  match-stamp none h = refl
  match-stamp (some f) h = same_tree f h
