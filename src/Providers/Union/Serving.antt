-- ===== src/Providers/Union/Serving.antt =====
-- What a source answers over its rows, and the one table of all rows.
use crm_starter.Prelude.{
  ℕ, ◌≡◌, ◌∙◌, refl, ap, Bool, true, ◌&&◌, String, Option, none, some, List, [], ◌∷◌, arith, inl,
  inr, ◌⊎◌, ◌+◌, ◌-◌, ◌*◌, keep, map, length, All, All-map,
}
use crm_starter.Prelude.Sort as Order_by
use crm_starter.Prelude.Merge.{concat}
use crm_starter.Core.Value.{Text, Runtime, Row}
use crm_starter.Core.Value.Equality.{text_eq_refl}
use crm_starter.Core.Query.{ListQuery, Page, effective_filter}
use crm_starter.Core.Results.{ok}
use crm_starter.Providers.Local.{match, apply_search, apply_filter, selected, run_query, all_stages}
use crm_starter.Providers.Local.Commute.{found, apply_filter-keep, apply_search-keep}
use crm_starter.Providers.Local.Lex.{lex_lt, apply_sort-sort}
use crm_starter.Providers.Union.{Source, Union, mem, stamp}

-- A total that is not given, or the one that is right.
abbrev pub Exact : Option ℕ → ℕ → Type 0
Exact o n = (o ≡ none) ⊎ (o ≡ some n)

-- A source over `rows`: it answers each query as `run_query` does, and gives a total only if that is
-- the number of rows found.
pub record Serves (rt : Runtime) (fields : List String) (rows : List Row) (s : Source)
    : Type 0 where
  pub answers :
      (q : ListQuery)
      → (page : Page Row) × (s.provider.list q ≡ ok page)
        × (page.items ≡ (run_query rt all_stages fields q rows).items)
        × Exact page.total (length (selected rt all_stages fields q rows))

-- The one table: the rows of all sources, stamped, in the order of the sources.
abbrev pub table : Runtime → Union → (Text → List Row) → List Row
table rt u held = concat (map (λ s. map (stamp rt u s.label) (held s.label)) u.sources)

pub and_true : (b : Bool) → (b && true) ≡ b
and_true b = ground arith

pub no_offset : (n : ℕ) → (1 - 1) * n ≡ 0
no_offset n = omega arith

pub add_totals :
    (o o' : Option ℕ) (n n' : ℕ)
    → Exact o n
    → Exact o' n'
    → Exact
        (elim o [ none ↦ none | some t ↦ elim o' [ none ↦ none | some t' ↦ some (t + t') ] ])
        (n + n')
add_totals o o' n n' (inl e) k = inl (rw e refl)
add_totals o o' n n' (inr e) (inl e') = inl (rw (e, e') refl)
add_totals o o' n n' (inr e) (inr e') = inr (rw (e, e') refl)

pub selected-sort :
    (rt : Runtime) (fields : List String) (q : ListQuery) (rows : List Row)
    → selected rt all_stages fields q rows
      ≡ Order_by.sort
          (lex_lt rt q.sort)
          (keep (found rt q.search fields) (keep (λ row. match rt row (effective_filter q)) rows))
unfolding selected
selected-sort rt fields q rows =
    apply_sort-sort rt (apply_search rt (apply_filter rt rows (effective_filter q)) q.search fields)
      q.sort
    ∙ ap (Order_by.sort (lex_lt rt q.sort)) (
        apply_search-keep rt (apply_filter rt rows (effective_filter q)) q.search fields
        ∙ ap (keep (found rt q.search fields)) (apply_filter-keep rt rows (effective_filter q)))

pub here : (ss : List Source) → All (λ s. mem (map (λ t. t.label) ss) s.label ≡ true) ss
here [] = tt
here (s ∷ ss) =
    (ground (arith, text_eq_refl s.label), All-map _ _ ss (λ t h. ground (arith, h)) (here ss))
