-- ===== src/Providers/Shim/Grouping.antt =====
-- What the aggregates of app/providers/shim.py are over a backend that does what it claims.
use crm_starter.Prelude.{
  if◌then◌else◌, ℕ, ◌+◌, ◌≤◌, ltb, Bool, false, String, Option, none, some, List, [], ◌∷◌, length,
  keep, slice, ◌≡◌, refl, ◌∙◌, sym, ap, Bool-cases, arith, inl, inr, take_all, length-take,
  ltb-false,
}
use crm_starter.Prelude.Assoc.{some-inj}
use mathlib.Core.Path.{ap₂}
use crm_starter.Core.Value.{Value, Runtime, Row}
use crm_starter.Core.Query.{offset, Filter, ListQuery, effective_filter, Page}
use crm_starter.Core.Results.{Error, Result, ok, raise, too_many_rows}
use crm_starter.Core.Aggregates.{AggSpec, rows_query, spec_filter}
use crm_starter.Providers.Base.{Honours}
use crm_starter.Providers.Local.{
  apply_filter, apply_sort, apply_search, match_tree, all_stages, selected,
}
use crm_starter.Providers.Local.Pipeline.{items-paged}
use crm_starter.Providers.Local.Aggregate.{run_aggregate}
use crm_starter.Providers.Shim.{Shim, pushed, can_stream, stream, load, list}
use crm_starter.Providers.Shim.Aggregate.{aggregate, grouped, group_page}
use crm_starter.Providers.Shim.Pushdown.{pushed_rows}
use crm_starter.Providers.Shim.Refinement.{list-refines_run_query, load_answers}

ltb-false_of : (a b : ℕ) → b ≤ a → ltb a b ≡ false
ltb-false_of a b h = ground arith

module _ {ℓ} {A : Type ℓ} where
  none-ne-some : {x : A} → none ≡ some x → ⊥
  none-ne-some h = cc

  raise-ne-ok : {e : Error} {x : A} → raise e ≡ ok x → ⊥
  raise-ne-ok h = cc

  keep-keep : (p : A → Bool) (xs : List A) → keep p (keep p xs) ≡ keep p xs
  keep-keep p [] = refl
  keep-keep p (x ∷ xs) = elim (Bool-cases (p x)) [
    | inl h ↦ simp (h, keep-keep p xs)
    | inr h ↦ simp (h, keep-keep p xs)
  ]

  -- A slice that is shorter than asked for has cut nothing.
  slice-short : (n : ℕ) (xs : List A) → length (slice 0 (n + 1) xs) ≤ n → slice 0 (n + 1) xs ≡ xs
  slice-short n xs h = take_all (n + 1) xs (omega (arith, length-take (n + 1) xs))

module _ (rt : Runtime) where
  filter_twice :
      (rows : List Row) (f : Option Filter)
      → apply_filter rt (apply_filter rt rows f) f ≡ apply_filter rt rows f
  unfolding apply_filter
  filter_twice rows none = refl
  filter_twice rows (some f) = keep-keep (λ row. match_tree rt row f) rows

  run_aggregate-filtered :
      (divide : Value → ℕ → Value) (spec : AggSpec) (rows : List Row)
      → run_aggregate rt divide spec (apply_filter rt rows (spec_filter spec))
        ≡ run_aggregate rt divide spec rows
  unfolding run_aggregate
  run_aggregate-filtered divide spec rows = simp (filter_twice rows (spec_filter spec))

  selected-rows_query :
      (fields : List String) (spec : AggSpec) (n : ℕ) (rows : List Row)
      → selected rt all_stages fields (rows_query spec n) rows
        ≡ apply_filter rt rows (spec_filter spec)
  unfolding selected apply_sort apply_search effective_filter spec_filter
  selected-rows_query fields spec n rows = refl

module _ (rt : Runtime) (divide : Value → ℕ → Value) (s : Shim) (ask : AggSpec → Result (List Row))
    (spec : AggSpec) (rows : List Row) (honours : Honours rt s.inner rows) where
  abbrev request : ListQuery
  request = rows_query spec (s.max_rows + 1)

  first_page : offset request ≡ 0
  first_page = omega arith

  cut_page :
      (page : Page Row)
      → list rt s request ≡ some (ok page)
      → page.items ≡ slice 0 (s.max_rows + 1) (apply_filter rt rows (spec_filter spec))
  cut_page page h =
      list-refines_run_query rt s request rows page honours h
      ∙ items-paged rt all_stages s.search_fields request rows refl
      ∙ ap₂ (λ o xs. slice o (s.max_rows + 1) xs) first_page
          (selected-rows_query rt s.search_fields spec (s.max_rows + 1) rows)

  list-load :
      can_stream s request (pushed s request) ≡ false
      → list rt s request ≡ some (load rt s request (pushed s request))
  unfolding list
  list-load direct =
      ap
        (λ streams.
          if streams
          then stream rt s request (pushed s request)
          else some (load rt s request (pushed s request)))
        direct

  -- A page within the budget is all that the request is over.
  whole_page :
      (page : Page Row)
      → list rt s request ≡ some (ok page)
      → ltb s.max_rows (length page.items) ≡ false
      → page.items ≡ apply_filter rt rows (spec_filter spec)
  whole_page page h short =
      let cut : page.items ≡ slice 0 (s.max_rows + 1) (apply_filter rt rows (spec_filter spec)) =
        cut_page page h in
      cut
      ∙ slice-short s.max_rows (apply_filter rt rows (spec_filter spec))
          (omega (arith, ap length cut, ltb-false s.max_rows (length page.items) short))

  group_page-run_aggregate :
      (page : Page Row) (groups : List Row)
      → list rt s request ≡ some (ok page)
      → group_page rt divide s spec page ≡ ok groups
      → run_aggregate rt divide spec rows ≡ ok groups
  group_page-run_aggregate page groups h k =
      elim (Bool-cases (ltb s.max_rows (length page.items))) [
        | inl over ↦ absurd (raise-ne-ok (rw over at k))
        | inr short ↦
            sym (run_aggregate-filtered rt divide spec rows)
            ∙ ap (run_aggregate rt divide spec) (sym (whole_page page h short))
            ∙ rw short at k
      ]

  from_list :
      (listed : Option (Result (Page Row))) (groups : List Row)
      → list rt s request ≡ listed
      → grouped rt divide s spec listed ≡ some (ok groups)
      → run_aggregate rt divide spec rows ≡ ok groups
  from_list none groups e h = absurd (none-ne-some h)
  from_list (some (raise error)) groups e h = absurd (raise-ne-ok (some-inj h))
  from_list (some (ok page)) groups e h = group_page-run_aggregate page groups e (some-inj h)

  aggregate-grouped :
      s.inner.capabilities.aggregate ≡ false
      → aggregate rt divide s ask spec ≡ grouped rt divide s spec (list rt s request)
  unfolding aggregate
  aggregate-grouped off =
      ap (λ can. if can then some (ask spec) else grouped rt divide s spec (list rt s request)) off

  -- Over a backend that lists exactly what it claims, of which nothing is expected for a filter with an
  -- operator that it does not name, and that does not group, the groups that the shim answers are
  -- those of all its rows.
  pub aggregate-run_aggregate :
      (groups : List Row)
      → s.inner.capabilities.aggregate ≡ false
      → aggregate rt divide s ask spec ≡ some (ok groups)
      → run_aggregate rt divide spec rows ≡ ok groups
  aggregate-run_aggregate groups off h =
      from_list (list rt s request) groups refl (sym (aggregate-grouped off) ∙ h)

  grouped-within :
      (page : Page Row)
      → list rt s request ≡ some (ok page)
      → length (apply_filter rt rows (spec_filter spec)) ≤ s.max_rows
      → group_page rt divide s spec page ≡ run_aggregate rt divide spec rows
  grouped-within page h short =
      let cut : page.items ≡ slice 0 (s.max_rows + 1) (apply_filter rt rows (spec_filter spec)) =
        cut_page page h in
      let whole : page.items ≡ apply_filter rt rows (spec_filter spec) =
        cut ∙ take_all (s.max_rows + 1) (apply_filter rt rows (spec_filter spec)) (omega arith) in
      ap (λ over. if over then raise too_many_rows else run_aggregate rt divide spec page.items)
        (ltb-false_of s.max_rows (length page.items) (omega (arith, ap length whole)))
      ∙ ap (run_aggregate rt divide spec) whole
      ∙ run_aggregate-filtered rt divide spec rows

  -- It answers, the errors of the sums included, whenever the backend finds no more rows than the
  -- budget and does not page.
  pub aggregate_within :
      s.inner.capabilities.aggregate ≡ false
      → can_stream s request (pushed s request) ≡ false
      → length (pushed_rows rt s request (pushed s request) rows) ≤ s.max_rows
      → length (apply_filter rt rows (spec_filter spec)) ≤ s.max_rows
      → aggregate rt divide s ask spec ≡ some (run_aggregate rt divide spec rows)
  aggregate_within off direct few short =
      let (page, loaded) = load_answers rt s request rows honours few in
      let listed : list rt s request ≡ some (ok page) = list-load direct ∙ ap some loaded in
      aggregate-grouped off
      ∙ ap (grouped rt divide s spec) listed
      ∙ ap some (grouped-within page listed short)
