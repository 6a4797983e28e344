-- ===== src/Tests/Aggregates.antt =====
-- Group-by requests at concrete rows.
use crm_starter.Prelude.{◌≡◌, refl, ℕ, none, some, List, [], ◌∷◌}
use crm_starter.Prelude.Int.{pos, ◌+ℤ◌}
use crm_starter.Prelude.Assoc
use crm_starter.Prelude.Sort.{sort}
use crm_starter.Core.Value.{Value, num, text, Row, py_eq}
use crm_starter.Core.Query.{effective_filter}
use crm_starter.Core.Results.{Result, ok, raise, type_error}
use crm_starter.Core.Aggregates.{Agg, Measure, AggSpec, spec_filter}
use crm_starter.Providers.Base.{supports_ops}
use crm_starter.Providers.Local.{
  apply_filter, apply_search, apply_sort, run_query, match_tree, match_condition,
}
use crm_starter.Providers.Local.Aggregate.{
  run_aggregate, measure_of, py_add, keys_eq, sum_from, put_row, bucket_all, put_measures, entries,
  zip_row,
}
use crm_starter.Providers.Memory.{all_rows}
use crm_starter.Providers.Memory as Memory_of
use crm_starter.Providers.Memory.Reads.{reader-Honours}
use crm_starter.Providers.Shim.{pushed, can_stream, guard}
use crm_starter.Providers.Shim as Shim_of
use crm_starter.Providers.Shim.Aggregate.{aggregate}
use crm_starter.Providers.Shim.Grouping.{aggregate-run_aggregate}
use crm_starter.Providers.Union.Aggregate.{combine_value}
use crm_starter.Providers.Union.Combining.{measure_of-append}
use crm_starter.Tests.Data.{ascii, cities, row1, row2, row3, rome, in_rome}
use crm_starter.Tests.Shim.{dumb}

-- No average is taken here.
abbrev divide : Value → ℕ → Value
divide v n = v

abbrev total_id : Measure
total_id = record { agg = Agg.sum; field = "id"; alias = "total" }

abbrev rows_held : Measure
rows_held = record { agg = Agg.count; field = ""; alias = "count_all" }

measure_of-append_example :
    measure_of ascii divide total_id (row1 ∷ row2 ∷ row3 ∷ [])
    ≡ combine_value ascii Agg.sum (num (pos 3)) (num (pos 3))
unfolding measure_of sum_from py_add Assoc.lookup ◌+ℤ◌
measure_of-append_example =
    measure_of-append ascii divide total_id (row1 ∷ row2 ∷ []) (row3 ∷ []) (num (pos 3))
      (num (pos 3)) refl refl refl

abbrev by_city : AggSpec
by_city = record {
  group_by = "city" ∷ [];
  measures = rows_held ∷ total_id ∷ [];
  filter = none;
  scope = some in_rome;
  sort = [];
  limit = none;
}

abbrev groups : List Row
groups = (("city", text rome) ∷ ("count_all", num (pos 2)) ∷ ("total", num (pos 4)) ∷ []) ∷ []

abbrev cannot_group : AggSpec → Result (List Row)
cannot_group spec = raise type_error

grouped : aggregate ascii divide dumb cannot_group by_city ≡ some (ok groups)
unfolding aggregate Shim_of.list can_stream pushed guard Memory_of.list run_query apply_sort sort
    apply_search supports_ops apply_filter effective_filter match_tree match_condition Assoc.lookup
    py_eq run_aggregate measure_of sum_from py_add put_row bucket_all put_measures entries zip_row
    keys_eq spec_filter ◌+ℤ◌ Assoc.insert
grouped = refl

aggregate-run_aggregate_example : run_aggregate ascii divide by_city (all_rows cities) ≡ ok groups
aggregate-run_aggregate_example =
    aggregate-run_aggregate ascii divide dumb cannot_group by_city (all_rows cities)
      (reader-Honours ascii cities) groups refl grouped
