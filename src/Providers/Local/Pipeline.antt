-- ===== src/Providers/Local/Pipeline.antt =====
-- `run_query`: what a page holds, and what the pages hold together.
use crm_starter.Prelude.{
  ℕ, zero, suc, ◌+◌, ◌-◌, ◌*◌, ◌≡◌, ◌∙◌, sym, refl, ap, inl, inr, true, false, ◌&&◌, String, Option,
  none, some, List, [], ◌∷◌, ◌++◌, arith, All, All-keep, All-keep_of, All-map, All-take, All-drop,
  All-if, Bool-cases, length, take, slice, if◌then◌else◌, keep, length-take, length-drop,
  take-append-slice, ltb, min,
}
use mathlib.Core.Path.{ap₂}
use crm_starter.Prelude.Sort.{sort-All}
use crm_starter.Core.Value.{Runtime, Row}
use crm_starter.Core.Query.{Filter, Sort, ListQuery, Page, effective_filter, offset}
use crm_starter.Providers.Local.{
  match, match_tree, apply_filter, apply_search, search_terms, hit, apply_sort, row_lt, Stages,
  all_stages, selected, run_query,
}
use crm_starter.Providers.Local.Semantics.{match-effective_filter}

suc-sub-one : (n : ℕ) → suc n - 1 ≡ n
suc-sub-one n = omega arith

zero-mul : (m : ℕ) → 0 ≡ 0 * m
zero-mul m = omega arith

suc-mul : (n m : ℕ) → n * m + m ≡ suc n * m
suc-mul n m = grind arith

-- The test of `paginate` at skipped rows `k`, and the same test on all rows shown.
same_test :
    (k size total shown all_shown : ℕ)
    → shown ≡ min size (total - k)
    → all_shown ≡ min (k + size) total
    → ltb (k + shown) total ≡ ltb all_shown total
same_test k size total shown all_shown h₁ h₂ = ground arith

module _ (rt : Runtime) (stages : Stages) (fields : List String) (q : ListQuery)
    (rows : List Row) where
  pub items-paged :
      stages.do_paginate ≡ true
      → (run_query rt stages fields q rows).items
        ≡ slice (offset q) q.page_size (selected rt stages fields q rows)
  unfolding run_query
  items-paged h = simp h

  pub items-whole :
      stages.do_paginate ≡ false
      → (run_query rt stages fields q rows).items ≡ selected rt stages fields q rows
  unfolding run_query
  items-whole h = simp h

module _ (rt : Runtime) where
  abbrev Allowed : ListQuery → Row → Type 0
  Allowed q row = (match rt row q.filter && match rt row q.scope) ≡ true

  apply_filter-All :
      (rows : List Row) (f : Option Filter)
      → All (λ row. match rt row f ≡ true) (apply_filter rt rows f)
  unfolding apply_filter
  apply_filter-All [] none = tt
  apply_filter-All (row ∷ rows) none = (refl, apply_filter-All rows none)
  apply_filter-All rows (some f) = All-keep (λ row. match_tree rt row f) rows

  apply_search-All :
      (P : Row → Type 0) (rows : List Row) (fields : List String) (q : ListQuery)
      → All P rows
      → All P (apply_search rt rows q.search fields)
  unfolding apply_search
  apply_search-All P rows fields q h = go (search_terms rt q.search fields)
    where
      go :
          (ws : List (List ℕ))
          → All P (elim ws [ [] ↦ rows | v ∷ vs ↦ keep (hit rt fields (v ∷ vs)) rows ])
      go [] = h
      go (v ∷ vs) = All-keep_of P (hit rt fields (v ∷ vs)) rows h

  apply_sort-All :
      (P : Row → Type 0) (rows : List Row) (sorts : List Sort)
      → All P rows
      → All P (apply_sort rt rows sorts)
  unfolding apply_sort
  apply_sort-All P rows [] h = h
  apply_sort-All P rows (spec ∷ sorts) h =
      sort-All (row_lt rt spec) P (apply_sort rt rows sorts) (apply_sort-All P rows sorts h)

  module _ (stages : Stages) (fields : List String) (q : ListQuery) (rows : List Row) where
    abbrev filtered : List Row
    filtered = if stages.do_filter then apply_filter rt rows (effective_filter q) else rows

    selected-All : (P : Row → Type 0) → All P filtered → All P (selected rt stages fields q rows)
    unfolding selected
    selected-All P h = All-if P stages.do_sort _ _ (apply_sort-All P _ q.sort found) found
      where
        found :
            All P (if stages.do_search then apply_search rt filtered q.search fields else filtered)
        found = All-if P stages.do_search _ _ (apply_search-All P filtered fields q h) h

    filtered-All : stages.do_filter ≡ true → All (Allowed q) filtered
    filtered-All on = rw on (
        All-map _ (Allowed q) _ (λ row h. sym (match-effective_filter rt row q) ∙ h)
          (apply_filter-All rows (effective_filter q)))

    abbrev items : List Row
    items = (run_query rt stages fields q rows).items

    items-All : (P : Row → Type 0) → All P (selected rt stages fields q rows) → All P items
    unfolding run_query
    items-All P h = elim (Bool-cases stages.do_paginate) [
      | inl e ↦ rw e (All-take P q.page_size _ (All-drop P (offset q) _ h))
      | inr e ↦ rw e h
    ]

    -- Whatever the other stages do, with the filter stage on, each row of a page matches the user's
    -- filter and the scope of the caller.
    pub run_query-allowed :
        stages.do_filter ≡ true
        → All
            (λ row. (match rt row q.filter && match rt row q.scope) ≡ true)
            (run_query rt stages fields q rows).items
    run_query-allowed on = items-All (Allowed q) (selected-All (Allowed q) (filtered-All on))

  -- Query `q`, asking for its page number `n`.
  abbrev at_page : ListQuery → ℕ → ListQuery
  at_page q n = record q { page = n }

  module _ (fields : List String) (q : ListQuery) (rows : List Row) where
    abbrev pub page_of : ℕ → Page Row
    page_of n = run_query rt all_stages fields (at_page q n) rows

    abbrev pub result : List Row
    result = selected rt all_stages fields q rows

    -- The rows of the first `n` pages, one after the other.
    abbrev pub first_pages : ℕ → List Row
    first_pages zero = []
    first_pages (suc n) = first_pages n ++ (page_of (suc n)).items

    offset-at_page : (n : ℕ) → offset (at_page q (suc n)) ≡ n * q.page_size
    offset-at_page n = ap (λ k. k * q.page_size) (suc-sub-one n)

    page_items : (n : ℕ) → (page_of (suc n)).items ≡ slice (n * q.page_size) q.page_size result
    unfolding run_query effective_filter
    page_items n = ap (λ k. slice k q.page_size result) (offset-at_page n)

    -- The first `n` pages, one after the other, are the first rows of the whole sorted answer:
    -- paging loses no row, repeats none and keeps the order.
    pub first_pages-take : (n : ℕ) → first_pages n ≡ take (n * q.page_size) result
    first_pages-take zero = ap (λ k. take k result) (zero-mul q.page_size)
    first_pages-take (suc n) =
        ap₂ (λ xs ys. xs ++ ys) (first_pages-take n) (page_items n)
        ∙ take-append-slice (n * q.page_size) q.page_size result
        ∙ ap (λ k. take k result) (suc-mul n q.page_size)

    has_more-at_page :
        (n : ℕ)
        → (page_of (suc n)).has_more
          ≡ some (ltb (n * q.page_size + length (page_of (suc n)).items) (length result))
    unfolding run_query effective_filter
    has_more-at_page n =
        ap (λ k. some (ltb (k + length (page_of (suc n)).items) (length result))) (offset-at_page n)

    -- `has_more` of page n + 1 says whether the pages up to it leave a row of the answer out.
    pub has_more_exact :
        (n : ℕ)
        → (page_of (suc n)).has_more ≡ some (ltb (length (first_pages (suc n))) (length result))
    has_more_exact n =
        has_more-at_page n
        ∙ ap some
            (same_test (n * q.page_size) q.page_size (length result) _ _ items_length total_length)
      where
        items_length :
            length (page_of (suc n)).items ≡ min q.page_size (length result - n * q.page_size)
        items_length =
            ap length (page_items n) ∙ length-take _ _ ∙ ap (min q.page_size) (length-drop _ result)

        total_length :
            length (first_pages (suc n)) ≡ min (n * q.page_size + q.page_size) (length result)
        total_length =
            ap length (first_pages-take (suc n))
            ∙ length-take _ _
            ∙ ap (λ k. min k (length result)) (sym (suc-mul n q.page_size))
