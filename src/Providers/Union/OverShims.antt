-- ===== src/Providers/Union/OverShims.antt =====
-- A union as the registry builds it: every source is behind a shim.
use crm_starter.Prelude.{
  ◌≡◌, ◌∙◌, refl, ap, sym, Bool, true, false, ◌&&◌, String, Option, none, some, List, [], ◌∷◌, ◌++◌,
  all, map, All, All-keep, All-keep_of, All-map, if◌then◌else◌, ltb,
}
use mathlib.Core.Path.{ap₂}
use crm_starter.Prelude.Merge.{concat}
use crm_starter.Core.Value.{Text, Runtime, Row}
use crm_starter.Core.Query.{Filter, ListQuery, Page, empty_page, effective_filter, conditions_of}
use crm_starter.Core.Results.{too_many_rows, Result, ok, raise, value_error, ◌>>=◌, ok_bind, ok-inj}
use crm_starter.Providers.Base.{Reader, Honours}
use crm_starter.Providers.Local.{match, run_query, all_stages}
use crm_starter.Providers.Shim.{Shim, advertised}
use crm_starter.Providers.Shim as Shim_of
use crm_starter.Providers.Shim.Refinement.{list-refines_run_query}
use crm_starter.Providers.Union.{
  Source, Union, mem, labels, stamp, split_optional, admits, visited, gather, needed, inner_query,
  stamped, merge, list_from, list,
}
use crm_starter.Providers.Union.Stamps.{spared, unwritten}
use crm_starter.Providers.Union.Routing.{routable, split_optional-match}
use crm_starter.Providers.Union.Paging.{cut, page-cut, window, items_nothing}
use crm_starter.Providers.Union.Serving.{table, here}

-- A source whose answers, when it gives one, are those of `run_query` over `rows`.
abbrev Agrees : Runtime → List String → List Row → Source → Type 0
Agrees rt fields rows s =
    (q : ListQuery) (page : Page Row)
    → s.provider.list q ≡ ok page
    → page.items ≡ (run_query rt all_stages fields q rows).items

module _ (rt : Runtime) (u : Union) (fields : List String) (held : Text → List Row) (q : ListQuery)
    (allowed : Option (List Text)) (rest : Option Filter)
    (sorts_spared : all (λ s. spared u s.field) q.sort ≡ true)
    (search_unwritten : all (unwritten u) fields ≡ true)
    (splits : (l : Text)
      → mem (labels u) l ≡ true
      → (row : Row)
      → match rt (stamp rt u l row) (effective_filter q)
        ≡ (admits allowed l && match rt row rest)) where
  gathered_cuts :
      (ss : List Source) (pages : List (Text × Page Row))
      → All (λ s. Agrees rt fields (held s.label) s) ss
      → All (λ s. mem (labels u) s.label ≡ true) ss
      → All (λ s. admits allowed s.label ≡ true) ss
      → gather ss (inner_query u q rest) ≡ ok pages
      → stamped rt u pages
        ≡ concat (map (cut rt u fields held q allowed rest sorts_spared search_unwritten splits) ss)
  unfolding gather
  gathered_cuts [] pages h m a e = ap (stamped rt u) (sym (ok-inj e))
  gathered_cuts (s ∷ ss) pages h m a e =
      let inner = inner_query u q rest in
      let (page, listed, others) =
        ok_bind (s.provider.list inner)
          (λ page. gather ss inner >>= (λ pages. ok ((s.label, page) ∷ pages))) pages e in
      let (later, gathered, same) =
        ok_bind (gather ss inner) (λ ps. ok ((s.label, page) ∷ ps)) pages others in
      ap (stamped rt u) (sym (ok-inj same))
      ∙ ap₂ ◌++◌
          (page-cut rt u fields held q allowed rest sorts_spared search_unwritten splits s page m.0
            a.0 (h.0 inner page listed))
          (gathered_cuts ss later h.1 m.1 a.1 gathered)

  page_table :
      (ss : List Source) (page : Page Row)
      → visited u allowed ≡ ss
      → All (λ s. Agrees rt fields (held s.label) s) u.sources
      → list_from rt u q ss rest ≡ ok page
      → page.items ≡ (run_query rt all_stages fields q (table rt u held)).items
  unfolding list_from empty_page merge
  page_table [] page e h l =
      ap (λ p. p.items) (sym (ok-inj l))
      ∙ sym (
          items_nothing rt u fields held q allowed rest sorts_spared search_unwritten splits e
            (here u.sources))
  page_table (s ∷ ss) page e h l = go (ltb u.max_rows (needed q)) l
    where
      inner : ListQuery
      inner = inner_query u q rest

      go :
          (b : Bool)
          → ◌≡◌ {A = Result (Page Row)}
              (if b
                then raise too_many_rows
                else gather (s ∷ ss) inner >>= (λ pages. ok (merge rt u q pages)))
              (ok page)
          → page.items ≡ (run_query rt all_stages fields q (table rt u held)).items
      go true k = cc
      go false k =
          let (pages, gathered, same) =
            ok_bind (gather (s ∷ ss) inner) (λ pages. ok (merge rt u q pages)) page k in
          ap (λ p. p.items) (sym (ok-inj same))
          ∙ window rt u fields held q allowed rest sorts_spared search_unwritten splits pages
              (here u.sources)
              (gathered_cuts (visited u allowed) pages (All-keep_of _ _ u.sources h)
                (All-keep_of _ _ u.sources (here u.sources))
                (All-keep (λ t. admits allowed t.label) u.sources) (rw e gathered))

-- The page of a union whose sources, when they answer, answer as `run_query` does.
list-table :
    (rt : Runtime) (u : Union) (fields : List String) (held : Text → List Row) (q : ListQuery)
    (page : Page Row)
    → All (λ s. Agrees rt fields (held s.label) s) u.sources
    → all (routable u) (conditions_of (effective_filter q)) ≡ true
    → all (λ s. spared u s.field) q.sort ≡ true
    → all (unwritten u) fields ≡ true
    → list rt u q ≡ ok page
    → page.items ≡ (run_query rt all_stages fields q (table rt u held)).items
unfolding list
list-table rt u fields held q page agrees routes sorts search h =
    let (r, split_ok, e) =
      ok_bind (split_optional rt u (effective_filter q)) (λ r. list_from rt u q (visited u r.0) r.1)
        page h in
    page_table rt u fields held q r.0 r.1 sorts search
      (λ l known row. split_optional-match rt u l known row (effective_filter q) r routes split_ok)
      (visited u r.0) page refl agrees e

-- What a shim answers, as a reader. It always gives an answer or an error, so the last case is none.
abbrev pub shim_reader : Runtime → Shim → Reader
shim_reader rt sh = record {
  capabilities = advertised sh.search_fields sh.inner.capabilities;
  list = λ q. elim (Shim_of.list rt sh q) [ some r ↦ r | none ↦ raise value_error ];
}

-- A source that is behind a shim, over a backend that does exactly what it claims.
pub record Shimmed (rt : Runtime) (fields : List String) (rows : List Row) (s : Source)
    : Type 0 where
  pub shim : Shim
  pub behind : s.provider ≡ shim_reader rt shim
  pub searches : shim.search_fields ≡ fields
  pub honours : Honours rt shim.inner rows

Shimmed-Agrees :
    (rt : Runtime) (fields : List String) (rows : List Row) (s : Source)
    → Shimmed rt fields rows s
    → Agrees rt fields rows s
Shimmed-Agrees rt fields rows s w q page h =
    go (Shim_of.list rt w.shim q) refl (sym (ap (λ p. p.list q) w.behind) ∙ h)
    ∙ ap (λ fs. (run_query rt all_stages fs q rows).items) w.searches
  where
    go :
        (o : Option (Result (Page Row)))
        → Shim_of.list rt w.shim q ≡ o
        → ◌≡◌ {A = Result (Page Row)} (elim o [ some r ↦ r | none ↦ raise value_error ]) (ok page)
        → page.items ≡ (run_query rt all_stages w.shim.search_fields q rows).items
    go none e k = cc
    go (some r) e k = list-refines_run_query rt w.shim q rows page w.honours (e ∙ ap some k)

-- When every source is behind a shim, over a backend that does exactly what it claims but may claim
-- little, and of which nothing is expected for a filter with an operator that it does not name, each answer of the union holds the rows that the whole query selects in Python from the one
-- table of all stamped rows, in its order. The query's filter can be routed, it neither sorts nor asks
-- by a prefixed key, and it searches no column that the union writes.
pub list-refines_table :
    (rt : Runtime) (u : Union) (fields : List String) (held : Text → List Row) (q : ListQuery)
    (page : Page Row)
    → All (λ s. Shimmed rt fields (held s.label) s) u.sources
    → all (routable u) (conditions_of (effective_filter q)) ≡ true
    → all (λ s. spared u s.field) q.sort ≡ true
    → all (unwritten u) fields ≡ true
    → list rt u q ≡ ok page
    → page.items ≡ (run_query rt all_stages fields q (table rt u held)).items
list-refines_table rt u fields held q page shims =
    list-table rt u fields held q page
      (All-map _ _ u.sources (λ s. Shimmed-Agrees rt fields (held s.label) s) shims)
