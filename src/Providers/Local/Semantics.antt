-- ===== src/Providers/Local/Semantics.antt =====
-- What the filter builders of app/core/query.py mean to `match` of app/providers/local.py.
use crm_starter.Prelude.{
  ◌≡◌, ◌∙◌, refl, ◌&&◌, Option, none, some, List, [], ◌∷◌, all, any, somes, arith,
}
use crm_starter.Core.Value.{Runtime, Row}
use crm_starter.Core.Query.{conj, Filter, of_list, collapse, and_, or_, ListQuery, effective_filter}
use crm_starter.Providers.Local.{match_tree, match_all, match_any, match}

module _ (rt : Runtime) (row : Row) where
  match_all-of_list :
      (fs : List Filter) → match_all rt row (of_list fs) ≡ all (match_tree rt row) fs
  unfolding match_tree
  match_all-of_list [] = refl
  match_all-of_list (f ∷ fs) = ground (arith, match_all-of_list fs)

  match_any-of_list :
      (fs : List Filter) → match_any rt row (of_list fs) ≡ any (match_tree rt row) fs
  unfolding match_tree
  match_any-of_list [] = refl
  match_any-of_list (f ∷ fs) = ground (arith, match_any-of_list fs)

  all-somes :
      (cs : List (Option Filter)) → all (match_tree rt row) (somes cs) ≡ all (match rt row) cs
  all-somes [] = refl
  all-somes (none ∷ cs) = all-somes cs
  all-somes (some f ∷ cs) = ground (arith, all-somes cs)

  match-collapse_conj :
      (fs : List Filter) → match rt row (collapse conj fs) ≡ all (match_tree rt row) fs
  unfolding match_tree
  match-collapse_conj [] = refl
  match-collapse_conj (f ∷ []) = ground arith
  match-collapse_conj (f ∷ g ∷ fs) = ground (arith, match_all-of_list fs)

  -- `and_` of filters matches exactly when each of them does, where None matches everything.
  pub match-and_ : (cs : List (Option Filter)) → match rt row (and_ cs) ≡ all (match rt row) cs
  unfolding and_
  match-and_ cs = match-collapse_conj (somes cs) ∙ all-somes cs

  -- `or_` of filters, at least one of which is not None, matches exactly when one of those does.
  pub match-or_ :
      (f : Filter) (fs : List Filter) (cs : List (Option Filter))
      → somes cs ≡ f ∷ fs
      → match rt row (or_ cs) ≡ any (match_tree rt row) (f ∷ fs)
  unfolding or_ match_tree
  match-or_ f [] cs h = rw h (ground arith)
  match-or_ f (g ∷ fs) cs h = rw h (ground (arith, match_any-of_list fs))

  -- A page is asked for with the user's filter and the caller's scope, and both are applied.
  pub match-effective_filter :
      (q : ListQuery)
      → match rt row (effective_filter q) ≡ (match rt row q.filter && match rt row q.scope)
  unfolding effective_filter
  match-effective_filter q = match-and_ (q.filter ∷ q.scope ∷ []) ∙ ground arith
