-- ===== src/Providers/Shim/Refinement.antt =====
-- The shim over a backend that keeps its promises answers as the query language does.
use crm_starter.Prelude.{
  ℕ, ◌+◌, ◌≤◌, ◌≡◌, ◌∙◌, refl, ap, sym, true, false, not, String, Option, none, some, List, [], ◌∷◌,
  arith, inl, inr, Bool-cases, length, slice, length-take, take_all, ◌⊎◌,
}
use mathlib.Core.Path.{ap₂}
use crm_starter.Core.Value.{Text, Runtime, Row}
use crm_starter.Core.Query.{ListQuery, Page, effective_filter, offset}
use crm_starter.Core.Results.{ok}
use crm_starter.Providers.Local.Pipeline.{items-paged, items-whole}
use crm_starter.Providers.Local.{
  Stages, all_stages, selected, run_query, apply_search, search_terms, words, apply_filter,
  apply_sort,
}
use crm_starter.Providers.Base.{Honours, stages_of}
use crm_starter.Providers.Shim.{
  Shim, Pushed, pushed, inner_query, local_stages, has_search, has_items, can_stream, stream, list,
  complete, load, guard, finish_pushed_page,
}
use crm_starter.Providers.Shim.Stream.{wanted-selected}
use crm_starter.Providers.Shim.Gather.{stream-page}
use crm_starter.Providers.Shim.Pushdown.{
  IsSafe, inner-Takes, pushed-IsSafe, pushed_rows, inner-selected, local-selected,
}

module _ (s : Shim) (q : ListQuery) (push : Pushed) where
  offset-pushed : push.page ≡ true → offset (inner_query s q push) ≡ offset q
  unfolding inner_query
  offset-pushed h = ground arith

  page_size-pushed : push.page ≡ true → (inner_query s q push).page_size ≡ q.page_size
  unfolding inner_query
  page_size-pushed h = ground arith

  offset-unpaged : push.page ≡ false → offset (inner_query s q push) ≡ 0
  unfolding inner_query
  offset-unpaged h = ground arith

  page_size-unpaged : push.page ≡ false → (inner_query s q push).page_size ≡ s.max_rows + 1
  unfolding inner_query
  page_size-unpaged h = ground arith

search-none :
    (rt : Runtime) (xs : List Row) (term : Option Text) (fields : List String)
    → has_search term ≡ false
    → apply_search rt xs term fields ≡ xs
unfolding apply_search search_terms words
search-none rt xs none fields h = refl
search-none rt xs (some []) [] h = refl
search-none rt xs (some []) (f ∷ fields) h = refl
search-none rt xs (some (c ∷ t)) fields h = cc

items-finish : (q : ListQuery) (page : Page Row) → (finish_pushed_page q page).items ≡ page.items
unfolding finish_pushed_page
items-finish q page = ground arith

-- What a page that is cut by the backend needs.
page_needs :
    (s : Shim) (q : ListQuery)
    → (pushed s q).page ≡ true
    → (s.inner.capabilities.server_paginate ≡ true)
      × ((pushed s q).filter ≡ true)
      × ((pushed s q).sort ≡ true)
      × (((pushed s q).search ≡ true) ⊎ (has_search q.search ≡ false))
unfolding pushed
page_needs s q h = ground arith

module _ (rt : Runtime) (s : Shim) (q : ListQuery) (rows : List Row) where
  abbrev push : Pushed
  push = pushed s q

  abbrev found_rows : List Row
  found_rows = pushed_rows rt s q push rows

  abbrev reference : Page Row
  reference = run_query rt all_stages s.search_fields q rows

  abbrev served : Page Row
  served =
      run_query rt (stages_of s.inner.capabilities) s.inner.capabilities.searchable_fields
        (inner_query s q push) rows

  -- A page that is pushed down needs nothing more from the shim.
  pushed_complete : push.page ≡ true → found_rows ≡ selected rt all_stages s.search_fields q rows
  unfolding selected
  pushed_complete h =
      let (_, f, o, w) = page_needs s q h in
      elim w [
        | inl on ↦ rw (f, o, on) refl
        | inr off ↦ elim (Bool-cases push.search) [
          | inl on ↦ rw (f, o, on) refl
          | inr no_push ↦
              rw (f, o, no_push)
                (ap (λ xs. apply_sort rt xs q.sort)
                  (sym (
                    search-none rt (apply_filter rt rows (effective_filter q)) q.search
                      s.search_fields off)))
        ]
      ]

  safe : IsSafe s q push
  safe = pushed-IsSafe s q

  abbrev stages : Stages
  stages = stages_of s.inner.capabilities

  abbrev fields : List String
  fields = s.inner.capabilities.searchable_fields

  abbrev inner_q : ListQuery
  inner_q = inner_query s q push

  items-served_page : push.page ≡ true → served.items ≡ reference.items
  items-served_page h =
      let (p, _, _, _) = page_needs s q h in
      items-paged rt stages fields inner_q rows p
      ∙ ap₂ (λ o n. slice o n (selected rt stages fields inner_q rows)) (offset-pushed s q push h)
          (page_size-pushed s q push h)
      ∙ ap (slice (offset q) q.page_size) (inner-selected rt s q push safe rows ∙ pushed_complete h)
      ∙ sym (items-paged rt all_stages s.search_fields q rows refl)

  -- A budget that was not used up has cut nothing.
  uncut : (n : ℕ) (xs ys : List Row) → ys ≡ slice 0 (n + 1) xs → length ys ≤ n → ys ≡ xs
  uncut n xs ys e short =
      e ∙ take_all (n + 1) xs (omega (arith, ap length e, length-take (n + 1) xs, short))

  items-served_rows :
      push.page ≡ false → length served.items ≤ s.max_rows → served.items ≡ found_rows
  items-served_rows h short = elim (Bool-cases s.inner.capabilities.server_paginate) [
    | inl on ↦
        uncut s.max_rows found_rows served.items
          (items-paged rt stages fields inner_q rows on
            ∙ ap₂ (λ o n. slice o n (selected rt stages fields inner_q rows))
                (offset-unpaged s q push h) (page_size-unpaged s q push h)
            ∙ ap (slice 0 (s.max_rows + 1)) (inner-selected rt s q push safe rows))
          short
    | inr off ↦ items-whole rt stages fields inner_q rows off ∙ inner-selected rt s q push safe rows
  ]

  -- What the guard lets through is within the budget.
  guard_passed : (page : Page Row) → guard s page ≡ false → length page.items ≤ s.max_rows
  unfolding guard
  guard_passed page h = ground arith

  items-local :
      (xs : List Row)
      → xs ≡ found_rows
      → (run_query rt (local_stages push (not push.sort) true) s.search_fields q xs).items
        ≡ reference.items
  items-local xs e =
      ap (λ ys. (run_query rt (local_stages push (not push.sort) true) s.search_fields q ys).items)
        e
      ∙ items-paged rt (local_stages push (not push.sort) true) s.search_fields q found_rows refl
      ∙ ap (slice (offset q) q.page_size) (local-selected rt s q push safe rows true)
      ∙ sym (items-paged rt all_stages s.search_fields q rows refl)

  complete-cases :
      (page answer : Page Row)
      → complete rt s q push page ≡ ok answer
      → (push.page ≡ true) × (finish_pushed_page q page ≡ answer)
        ⊎ (push.page ≡ false)
          × (guard s page ≡ false)
          × (run_query rt (local_stages push (not push.sort) true) s.search_fields q page.items
              ≡ answer)
  unfolding complete
  complete-cases page answer h = ground arith

  items-complete :
      (page answer : Page Row)
      → page.items ≡ served.items
      → complete rt s q push page ≡ ok answer
      → answer.items ≡ reference.items
  items-complete page answer e h = elim (complete-cases page answer h) [
    | inl (on, same) ↦ ap (λ p. p.items) (sym same) ∙ items-finish q page ∙ e ∙ items-served_page on
    | inr (off, fits, same) ↦
        ap (λ p. p.items) (sym same)
        ∙ items-local page.items
            (e ∙ items-served_rows off (omega (arith, ap length e, guard_passed page fits)))
  ]

  -- Over a backend that does exactly what it claims, an answer of the shim without streaming holds
  -- the rows of the reference query, whatever mix of stages the backend claims.
  pub items-load :
      (answer : Page Row)
      → Honours rt s.inner rows
      → load rt s q (pushed s q) ≡ ok answer
      → answer.items ≡ (run_query rt all_stages s.search_fields q rows).items
  unfolding load
  items-load answer honours h =
      let (page, listed, e, _) = honours.answers inner_q (inner-Takes s q push safe) in
      items-complete page answer e (rw listed at h)

  can_stream_needs :
      can_stream s q push ≡ true
      → (s.inner.capabilities.server_paginate ≡ true) × (has_items q.sort ≡ false)
  unfolding can_stream
  can_stream_needs h = ground arith

  items-stream :
      (answer : Page Row)
      → Honours rt s.inner rows
      → can_stream s q push ≡ true
      → stream rt s q push ≡ some (ok answer)
      → answer.items ≡ reference.items
  items-stream answer honours can h =
      let (paginates, unsorted) = can_stream_needs can in
      (stream-page rt s q push rows safe paginates unsorted honours answer h).0
      ∙ ap (slice (offset q) q.page_size)
          (wanted-selected rt s q push rows safe paginates unsorted honours)
      ∙ sym (items-paged rt all_stages s.search_fields q rows refl)

  -- Over a backend that does exactly what it claims, and of which nothing is expected for a filter
  -- with an operator that it does not name, each answer of the shim's `list`, streamed or not, holds
  -- the rows that the whole query selects in Python from all rows, in the same order, whatever mix of
  -- filtering, operators, searching, sorting and paging the backend claims.
  pub list-refines_run_query :
      (answer : Page Row)
      → Honours rt s.inner rows
      → list rt s q ≡ some (ok answer)
      → answer.items ≡ (run_query rt all_stages s.search_fields q rows).items
  unfolding list
  list-refines_run_query answer honours h = elim (Bool-cases (can_stream s q push)) [
    | inl can ↦ items-stream answer honours can (ground (arith, can, h))
    | inr cannot ↦ items-load answer honours (ground (arith, cannot, h))
  ]

  guard-fits :
      (page : Page Row)
      → length page.items ≤ s.max_rows
      → (page.total ≡ none) ⊎ (page.total ≡ some (length page.items))
      → guard s page ≡ false
  unfolding guard
  guard-fits page short exact = ground arith

  complete-answers :
      (page : Page Row)
      → (push.page ≡ true) ⊎ (guard s page ≡ false)
      → (answer : Page Row) × (complete rt s q push page ≡ ok answer)
  unfolding complete
  complete-answers page (inl on) = (finish_pushed_page q page, ground (arith, on))
  complete-answers page (inr fits) = elim (Bool-cases push.page) [
    | inl on ↦ (finish_pushed_page q page, ground (arith, on))
    | inr off ↦ (
      run_query rt (local_stages push (not push.sort) true) s.search_fields q page.items,
      ground (arith, off, fits),
    )
  ]

  -- Within the budget, a backend that pages has cut nothing, and one that does not gives it all.
  items-within : push.page ≡ false → length found_rows ≤ s.max_rows → served.items ≡ found_rows
  items-within h short = elim (Bool-cases s.inner.capabilities.server_paginate) [
    | inl on ↦
        items-paged rt stages fields inner_q rows on
        ∙ ap₂ (λ o n. slice o n (selected rt stages fields inner_q rows))
            (offset-unpaged s q push h) (page_size-unpaged s q push h)
        ∙ ap (slice 0 (s.max_rows + 1)) (inner-selected rt s q push safe rows)
        ∙ take_all (s.max_rows + 1) found_rows (omega arith)
    | inr off ↦ items-whole rt stages fields inner_q rows off ∙ inner-selected rt s q push safe rows
  ]

  -- The shim answers, without streaming, whenever what the backend finds is within `max_rows`: the
  -- budget is the one reason to refuse.
  pub load_answers :
      Honours rt s.inner rows
      → length (pushed_rows rt s q (pushed s q) rows) ≤ s.max_rows
      → (answer : Page Row) × (load rt s q (pushed s q) ≡ ok answer)
  unfolding load
  load_answers honours short =
      let (page, listed, items, total) = honours.answers inner_q (inner-Takes s q push safe) in
      let (answer, done) = complete-answers page (fits page items total) in (answer, rw listed done)
    where
      fits :
          (page : Page Row)
          → page.items ≡ served.items
          → (page.total ≡ none)
            ⊎ (page.total ≡ some (length (selected rt stages fields inner_q rows)))
          → (push.page ≡ true) ⊎ (guard s page ≡ false)
      fits page items total = elim (Bool-cases push.page) [
        | inl on ↦ inl on
        | inr off ↦
            let all_there : page.items ≡ found_rows = items ∙ items-within off short in
            inr (
              guard-fits page (omega (arith, ap length all_there)) (elim total [
                | inl unknown ↦ inl unknown
                | inr known ↦ inr (
                    known
                    ∙ ap (λ xs. some (length xs))
                        (inner-selected rt s q push safe rows ∙ sym all_there))
              ]))
      ]
