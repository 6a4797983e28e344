-- ===== src/Providers/Local/Commute.antt =====
-- Filtering and searching keep the rows of a test, and commute with each other and with sorting.
use crm_starter.Prelude.{
  ◌≡◌, refl, sym, Bool, true, String, Option, none, some, List, [], ◌∷◌, keep, keep-true, keep_comm,
}
use crm_starter.Core.Value.{Text, Runtime, Row}
use crm_starter.Core.Query.{Filter, Sort}
use crm_starter.Providers.Local.{match, apply_filter, apply_search, apply_sort, search_terms, hit}
use crm_starter.Providers.Local.Order.{keep-apply_sort}

abbrev pub hit_any : Runtime → List String → List Text → Row → Bool
hit_any rt fields [] row = true
hit_any rt fields (w ∷ ws) row = hit rt fields (w ∷ ws) row

-- Whether a search finds a row.
abbrev pub found : Runtime → Option Text → List String → Row → Bool
found rt term fields = hit_any rt fields (search_terms rt term fields)

module _ (rt : Runtime) where
  pub apply_filter-keep :
      (rows : List Row) (f : Option Filter)
      → apply_filter rt rows f ≡ keep (λ row. match rt row f) rows
  unfolding apply_filter
  apply_filter-keep rows none = sym (keep-true rows)
  apply_filter-keep rows (some f) = refl

  pub apply_search-keep :
      (rows : List Row) (term : Option Text) (fields : List String)
      → apply_search rt rows term fields ≡ keep (found rt term fields) rows
  unfolding apply_search
  apply_search-keep rows term fields = go (search_terms rt term fields)
    where
      go :
          (ws : List Text)
          → ◌≡◌ {A = List Row}
              (elim ws [ [] ↦ rows | v ∷ vs ↦ keep (hit rt fields (v ∷ vs)) rows ])
              (keep (hit_any rt fields ws) rows)
      go [] = sym (keep-true rows)
      go (v ∷ vs) = refl

  pub search-filter :
      (rows : List Row) (f : Option Filter) (term : Option Text) (fields : List String)
      → apply_search rt (apply_filter rt rows f) term fields
        ≡ apply_filter rt (apply_search rt rows term fields) f
  search-filter rows f term fields =
      simp (apply_filter-keep, apply_search-keep)
        (keep_comm (found rt term fields) (λ row. match rt row f) rows)

  pub filter-sort :
      (rows : List Row) (sorts : List Sort) (f : Option Filter)
      → apply_filter rt (apply_sort rt rows sorts) f ≡ apply_sort rt (apply_filter rt rows f) sorts
  filter-sort rows sorts f =
      simp apply_filter-keep (keep-apply_sort rt (λ row. match rt row f) rows sorts)

  pub search-sort :
      (rows : List Row) (sorts : List Sort) (term : Option Text) (fields : List String)
      → apply_search rt (apply_sort rt rows sorts) term fields
        ≡ apply_sort rt (apply_search rt rows term fields) sorts
  search-sort rows sorts term fields =
      simp apply_search-keep (keep-apply_sort rt (found rt term fields) rows sorts)
