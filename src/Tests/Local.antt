-- ===== src/Tests/Local.antt =====
-- The query stages at concrete inputs.
use crm_starter.Prelude.{◌≡◌, refl, true, ◌&&◌, [], ◌∷◌, ◌*◌, keep, All, take}
use crm_starter.Prelude.Sort.{IsSorted, ties, sort}
use crm_starter.Core.Query.{effective_filter}
use crm_starter.Providers.Local.{
  match, match_tree, all_stages, run_query, apply_sort, row_lt, apply_search, apply_filter,
  match_condition,
}
use crm_starter.Prelude.Assoc
use crm_starter.Core.Value.{py_eq}
use crm_starter.Providers.Local.Pipeline.{run_query-allowed, first_pages, result, first_pages-take}
use crm_starter.Providers.Local.Order.{apply_sort_lex}
use crm_starter.Tests.Data.{ascii, rows, row1, row3, query, by_city, by_id_down}

-- Of the three rows one is in the city and in the scope.
finds_one : (run_query ascii all_stages [] query rows).items ≡ row3 ∷ []
unfolding run_query apply_sort sort apply_search apply_filter effective_filter match_tree
    match_condition Assoc.lookup py_eq
finds_one = refl

run_query-allowed_example :
    All
      (λ row. (match ascii row query.filter && match ascii row query.scope) ≡ true)
      (run_query ascii all_stages [] query rows).items
run_query-allowed_example = run_query-allowed ascii all_stages [] query rows refl

first_pages-take_example :
    first_pages ascii [] query rows 2 ≡ take (2 * query.page_size) (result ascii [] query rows)
first_pages-take_example = first_pages-take ascii [] query rows 2

apply_sort_lex_example :
    IsSorted (row_lt ascii by_city) (apply_sort ascii rows (by_city ∷ by_id_down ∷ []))
    × (keep (ties (row_lt ascii by_city) row1) (apply_sort ascii rows (by_city ∷ by_id_down ∷ []))
        ≡ keep (ties (row_lt ascii by_city) row1) (apply_sort ascii rows (by_id_down ∷ [])))
apply_sort_lex_example = apply_sort_lex ascii rows by_city (by_id_down ∷ []) row1
