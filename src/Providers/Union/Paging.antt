-- ===== src/Providers/Union/Paging.antt =====
-- The page of a union is the page of one table that holds the stamped rows of all sources.
use crm_starter.Prelude.{
  ◌≡◌, ◌∙◌, refl, ap, sym, Bool, true, false, ◌&&◌, String, Option, some, List, [], ◌∷◌, ◌++◌,
  arith, all, inr, ◌+◌, keep, map, length, take, drop, slice, All, All-keep, All-keep_of, All-map,
  ltb, length-append,
}
use mathlib.Core.Path.{ap₂, subst}
use crm_starter.Prelude.Sort as Order_by
use crm_starter.Prelude.Merge.{concat, take-merge}
use crm_starter.Prelude.Tables.{
  slice-take, keep-concat, length-sort, slice-nil, map-take, length-map, keep-map, concat-keep,
  map-map, keep-false,
}
use crm_starter.Core.Value.{Text, Runtime, Row}
use crm_starter.Core.Query.{
  Filter, ListQuery, Page, empty_page, effective_filter, offset, conditions_of,
}
use crm_starter.Core.Results.{ok}
use crm_starter.Providers.Local.{match, apply_sort, selected, run_query, all_stages}
use crm_starter.Providers.Local.Semantics.{match-effective_filter}
use crm_starter.Providers.Local.Pipeline.{items-paged}
use crm_starter.Providers.Local.Commute.{found}
use crm_starter.Providers.Local.Lex.{lex_lt, lex_lt-IsWeakOrder, apply_sort-sort}
use crm_starter.Providers.Union.{
  Source, Union, mem, labels, stamp, split_optional, admits, visited, gather, sum_totals, needed,
  inner_query, stamped, merge, list_from, list, pushed,
}
use crm_starter.Providers.Union.Stamps.{spared, unwritten, found-stamp}
use crm_starter.Providers.Union.Keys.{map-apply_sort}
use crm_starter.Providers.Union.Routing.{routable, split_optional-match}
use crm_starter.Providers.Union.Serving.{
  Exact, Serves, table, and_true, no_offset, add_totals, selected-sort, here,
}

module _ (rt : Runtime) (u : Union) (fields : List String) (held : Text → List Row) (q : ListQuery)
    (allowed : Option (List Text)) (rest : Option Filter)
    (sorts_spared : all (λ s. spared u s.field) q.sort ≡ true)
    (search_unwritten : all (unwritten u) fields ≡ true)
    (splits : (l : Text)
      → mem (labels u) l ≡ true
      → (row : Row)
      → match rt (stamp rt u l row) (effective_filter q)
        ≡ (admits allowed l && match rt row rest)) where
  -- The rows of a source that the query selects, stamped.
  abbrev chosen_rows : Text → List Row
  chosen_rows l =
      keep (found rt q.search fields)
        (keep (λ row. match rt row (effective_filter q)) (map (stamp rt u l) (held l)))

  abbrev pub inner : ListQuery
  inner = inner_query u q rest

  chosen_rows-map :
      (l : Text)
      → mem (labels u) l ≡ true
      → admits allowed l ≡ true
      → chosen_rows l
        ≡ map (stamp rt u l) (
            keep
              (found rt q.search fields)
              (keep (λ row. match rt row (effective_filter inner)) (held l)))
  unfolding inner_query
  chosen_rows-map l m a =
      ap (keep (found rt q.search fields)) (
        keep-map (stamp rt u l) _ (λ row. match rt row (effective_filter inner)) (held l)
          (λ row.
            splits l m row
            ∙ ap (λ b. b && match rt row rest) a
            ∙ sym (match-effective_filter rt row inner ∙ and_true (match rt row rest))))
      ∙ keep-map (stamp rt u l) _ (found rt q.search fields) _
          (λ row. found-stamp rt u l row q.search fields search_unwritten)

  chosen_rows-none :
      (l : Text) → mem (labels u) l ≡ true → admits allowed l ≡ false → chosen_rows l ≡ []
  chosen_rows-none l m a = ap (keep (found rt q.search fields)) (
      keep-map (stamp rt u l) _ (λ row. false) (held l) (λ row. splits l m row ∙ ground (arith, a))
      ∙ ap (map (stamp rt u l)) (keep-false (held l)))

  -- What a source selects is what the table's rows of that source give.
  selected-inner :
      (l : Text)
      → mem (labels u) l ≡ true
      → admits allowed l ≡ true
      → map (stamp rt u l) (selected rt all_stages fields inner (held l))
        ≡ Order_by.sort (lex_lt rt q.sort) (chosen_rows l)
  unfolding inner_query
  selected-inner l m a =
      ap (map (stamp rt u l))
        (selected-sort rt fields inner (held l) ∙ sym (apply_sort-sort rt _ (pushed u q.sort)))
      ∙ map-apply_sort rt u l q.sort _ sorts_spared
      ∙ ap (Order_by.sort (lex_lt rt q.sort)) (sym (chosen_rows-map l m a))

  -- The stamped page of one source.
  abbrev pub cut : Source → List Row
  cut s = take (needed q) (Order_by.sort (lex_lt rt q.sort) (chosen_rows s.label))

  pub page-cut :
      (s : Source) (page : Page Row)
      → mem (labels u) s.label ≡ true
      → admits allowed s.label ≡ true
      → page.items ≡ (run_query rt all_stages fields inner (held s.label)).items
      → map (stamp rt u s.label) page.items ≡ cut s
  unfolding inner_query
  page-cut s page m a h =
      ap (map (stamp rt u s.label))
        (h ∙ items-paged rt all_stages fields inner (held s.label) refl ∙ first_page)
      ∙ map-take (stamp rt u s.label) (needed q)
          (selected rt all_stages fields inner (held s.label))
      ∙ ap (take (needed q)) (selected-inner s.label m a)
    where
      first_page :
          slice (offset inner) inner.page_size (selected rt all_stages fields inner (held s.label))
          ≡ take (needed q) (selected rt all_stages fields inner (held s.label))
      first_page =
          ap (λ k. slice k (needed q) (selected rt all_stages fields inner (held s.label))) {y = 0}
            (no_offset (needed q))

  length-selected :
      (l : Text)
      → mem (labels u) l ≡ true
      → admits allowed l ≡ true
      → length (selected rt all_stages fields inner (held l)) ≡ length (chosen_rows l)
  length-selected l m a =
      sym (length-map (stamp rt u l) (selected rt all_stages fields inner (held l)))
      ∙ ap length (selected-inner l m a)
      ∙ length-sort (lex_lt rt q.sort) (chosen_rows l)

  gathered_pages :
      (ss : List Source)
      → All (λ s. Serves rt fields (held s.label) s) ss
      → All (λ s. mem (labels u) s.label ≡ true) ss
      → All (λ s. admits allowed s.label ≡ true) ss
      → (pages : List (Text × Page Row)) × (gather ss inner ≡ ok pages)
        × (stamped rt u pages ≡ concat (map cut ss))
        × Exact (sum_totals pages) (length (concat (map (λ s. chosen_rows s.label) ss)))
  unfolding gather sum_totals
  gathered_pages [] h m a = ([], refl, refl, inr refl)
  gathered_pages (s ∷ ss) h m a =
      let (page, listed, items, total) = h.0.answers inner in
      let (pages, gathered, rows, totals) = gathered_pages ss h.1 m.1 a.1 in
      (
        (s.label, page) ∷ pages,
        rw (listed, gathered) refl,
        ap₂ ◌++◌ (page-cut s page m.0 a.0 items) rows,
        subst (Exact (sum_totals ((s.label, page) ∷ pages)))
            (ap (λ n. n + length (concat (map (λ s'. chosen_rows s'.label) ss)))
                (length-selected s.label m.0 a.0)
              ∙ sym (
                  length-append (chosen_rows s.label)
                    (concat (map (λ s'. chosen_rows s'.label) ss))))
            (add_totals page.total (sum_totals pages) _ _ total totals),
      )

  abbrev chosen_lists : List Source → List (List Row)
  chosen_lists ss = map (λ s. chosen_rows s.label) ss

  merged :
      (ss : List Source)
      → take (needed q) (Order_by.sort (lex_lt rt q.sort) (concat (map cut ss)))
        ≡ take (needed q) (Order_by.sort (lex_lt rt q.sort) (concat (chosen_lists ss)))
  merged ss =
      ap (λ xss. take (needed q) (Order_by.sort (lex_lt rt q.sort) (concat xss)))
        (sym (
          map-map (λ s. chosen_rows s.label)
            (λ xs. take (needed q) (Order_by.sort (lex_lt rt q.sort) xs)) ss))
      ∙ take-merge (lex_lt rt q.sort) (lex_lt-IsWeakOrder rt q.sort) (needed q) (chosen_lists ss)

  -- The table's rows that the query selects are those of the sources to visit.
  selected-table :
      All (λ s. mem (labels u) s.label ≡ true) u.sources
      → selected rt all_stages fields q (table rt u held)
        ≡ Order_by.sort (lex_lt rt q.sort) (concat (chosen_lists (visited u allowed)))
  selected-table m =
      selected-sort rt fields q (table rt u held)
      ∙ ap (Order_by.sort (lex_lt rt q.sort)) (
          ap (keep (found rt q.search fields)) (
            keep-concat matching (map stamped_rows u.sources)
            ∙ ap concat (map-map stamped_rows (keep matching) u.sources))
          ∙ keep-concat (found rt q.search fields)
              (map (λ s. keep matching (stamped_rows s)) u.sources)
          ∙ ap concat (
              map-map (λ s. keep matching (stamped_rows s)) (keep (found rt q.search fields))
                u.sources)
          ∙ concat-keep (λ s. chosen_rows s.label) (λ s. admits allowed s.label) u.sources
              (All-map _ _ u.sources (λ s here. chosen_rows-none s.label here) m))
    where
      matching : Row → Bool
      matching row = match rt row (effective_filter q)

      stamped_rows : Source → List Row
      stamped_rows s = map (stamp rt u s.label) (held s.label)

  pub window :
      (pages : List (Text × Page Row))
      → All (λ s. mem (labels u) s.label ≡ true) u.sources
      → stamped rt u pages ≡ concat (map cut (visited u allowed))
      → slice (offset q) q.page_size (apply_sort rt (stamped rt u pages) q.sort)
        ≡ (run_query rt all_stages fields q (table rt u held)).items
  window pages m h =
      slice-take (offset q) q.page_size (apply_sort rt (stamped rt u pages) q.sort)
      ∙ ap (λ xs. drop (offset q) (take (needed q) xs))
          (apply_sort-sort rt (stamped rt u pages) q.sort ∙ ap (Order_by.sort (lex_lt rt q.sort)) h)
      ∙ ap (drop (offset q)) (merged (visited u allowed))
      ∙ sym (
          slice-take (offset q) q.page_size
            (Order_by.sort (lex_lt rt q.sort) (concat (chosen_lists (visited u allowed)))))
      ∙ ap (slice (offset q) q.page_size) (sym (selected-table m))
      ∙ sym (items-paged rt all_stages fields q (table rt u held) refl)

  -- Where no source is to be visited, the table has no row for the query.
  selected_nothing :
      visited u allowed ≡ []
      → All (λ s. mem (labels u) s.label ≡ true) u.sources
      → selected rt all_stages fields q (table rt u held) ≡ []
  unfolding Order_by.sort
  selected_nothing e m =
      selected-table m ∙ ap (λ ss. Order_by.sort (lex_lt rt q.sort) (concat (chosen_lists ss))) e

  pub items_nothing :
      visited u allowed ≡ []
      → All (λ s. mem (labels u) s.label ≡ true) u.sources
      → (run_query rt all_stages fields q (table rt u held)).items ≡ []
  items_nothing e m =
      items-paged rt all_stages fields q (table rt u held) refl
      ∙ ap (slice (offset q) q.page_size) (selected_nothing e m)
      ∙ slice-nil (offset q) q.page_size

  -- What the page says, where the sources to visit are `ss`.
  abbrev Answers : List Source → Type 0
  Answers ss =
      (page : Page Row) × (list_from rt u q ss rest ≡ ok page)
      × (page.items ≡ (run_query rt all_stages fields q (table rt u held)).items)
      × Exact page.total (length (selected rt all_stages fields q (table rt u held)))

  paged_table :
      (ss : List Source)
      → visited u allowed ≡ ss
      → ltb u.max_rows (needed q) ≡ false
      → All (λ s. mem (labels u) s.label ≡ true) u.sources
      → All (λ s. Serves rt fields (held s.label) s) u.sources
      → Answers ss
  unfolding list_from empty_page merge Order_by.sort
  paged_table [] e w m h = (
    empty_page q,
    refl,
    sym (items_nothing e m),
    inr (ap some (sym (ap length (selected_nothing e m)))),
  )
  paged_table (s ∷ ss) e w m h =
      let (pages, gathered, rows, totals) =
        gathered_pages (visited u allowed) (All-keep_of _ _ u.sources h)
          (All-keep_of _ _ u.sources m) (All-keep (λ s. admits allowed s.label) u.sources) in
      (
        merge rt u q pages,
        rw (w, sym e, gathered) refl,
        window pages m rows,
        subst (Exact (sum_totals pages))
            (sym (length-sort (lex_lt rt q.sort) (concat (chosen_lists (visited u allowed))))
              ∙ sym (ap length (selected-table m)))
            totals,
      )

-- Each source answers by its own rows, and the page of the union is then that of the one table: exactly
-- its rows, in its order, however many rows the sources hold, and its total or none. The query is one
-- whose filter can be routed and that fits the row budget; it does not sort, and its conditions do not
-- ask, by a prefixed key, and it searches no column that the union writes.
pub list-run_query :
    (rt : Runtime) (u : Union) (fields : List String) (held : Text → List Row) (q : ListQuery)
    (r : Option (List Text) × Option Filter)
    → All (λ s. Serves rt fields (held s.label) s) u.sources
    → split_optional rt u (effective_filter q) ≡ ok r
    → ltb u.max_rows (needed q) ≡ false
    → all (routable u) (conditions_of (effective_filter q)) ≡ true
    → all (λ s. spared u s.field) q.sort ≡ true
    → all (unwritten u) fields ≡ true
    → (page : Page Row) × (list rt u q ≡ ok page)
      × (page.items ≡ (run_query rt all_stages fields q (table rt u held)).items)
      × Exact page.total (length (selected rt all_stages fields q (table rt u held)))
unfolding list split_optional
list-run_query rt u fields held q r serves split_ok fits routes sorts search =
    let (page, e, items, total) =
      paged_table rt u fields held q r.0 r.1 sorts search
        (λ l here row. split_optional-match rt u l here row (effective_filter q) r routes split_ok)
        (visited u r.0) refl fits (here u.sources) serves in
    (page, rw split_ok e, items, total)
