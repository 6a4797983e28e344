-- ===== src/Providers/Memory/Reads.antt =====
-- The in-memory provider as a backend of the shim.
use crm_starter.Prelude.{ℕ, ◌≡◌, refl, String, none, some, List, inl, inr, length, Bool-cases}
use crm_starter.Core.Value.{Runtime, Row}
use crm_starter.Core.Query.{ListQuery, Page}
use crm_starter.Providers.Local.{Stages, all_stages, selected, run_query}
use crm_starter.Core.Results.{ok}
use crm_starter.Providers.Base.{Honours, stages_of}
use crm_starter.Providers.Memory.{Memory, all_rows, list, reader}
use crm_starter.Providers.Shim.{Shim}
use crm_starter.Providers.Shim as Shim_of
use crm_starter.Providers.Shim.Refinement.{list-refines_run_query}

total-run_query :
    (rt : Runtime) (stages : Stages) (fields : List String) (q : ListQuery) (rows : List Row)
    → (run_query rt stages fields q rows).total ≡ some (length (selected rt stages fields q rows))
unfolding run_query
total-run_query rt stages fields q rows = elim (Bool-cases stages.do_paginate) [
  | inl on ↦ simp on
  | inr off ↦ simp off
]

-- With any capabilities, the in-memory provider does exactly the stages that it claims, and gives
-- no total or the exact one.
pub reader-Honours : (rt : Runtime) (m : Memory) → Honours rt (reader rt m) (all_rows m)
unfolding list
reader-Honours rt m = record {
  answers = λ q takes.
      let page : Page Row =
        run_query rt (stages_of m.capabilities) m.capabilities.searchable_fields q (all_rows m) in
      let total =
        total-run_query rt (stages_of m.capabilities) m.capabilities.searchable_fields q
          (all_rows m) in
      elim (Bool-cases m.capabilities.total_count) [
        | inl on ↦ (page, simp on, refl, inr total)
        | inr off ↦ (record page { total = none }, simp off, refl, inl refl)
      ];
}

abbrev pub over_memory : Runtime → Memory → List String → ℕ → ℕ → Shim
over_memory rt m fields max_rows max_scan_rows = record {
  inner = reader rt m;
  max_rows = max_rows;
  max_scan_rows = max_scan_rows;
  search_fields = fields;
}

-- A shim over an in-memory provider that lacks any of filtering, searching, sorting, paging and
-- counting answers with the rows that the whole query selects from the provider's rows.
pub shim_over_memory :
    (rt : Runtime) (m : Memory) (fields : List String) (max_rows max_scan_rows : ℕ) (q : ListQuery)
    (answer : Page Row)
    → Shim_of.list rt (over_memory rt m fields max_rows max_scan_rows) q ≡ some (ok answer)
    → answer.items ≡ (run_query rt all_stages fields q (all_rows m)).items
shim_over_memory rt m fields max_rows max_scan_rows q answer h =
    list-refines_run_query rt (over_memory rt m fields max_rows max_scan_rows) q (all_rows m) answer
      (reader-Honours rt m) h
