-- ===== src/Providers/Union/Aggregate.antt =====
-- aggregate of app/providers/union.py: each source groups its own rows, and the groups are merged.
use crm_starter.Prelude.{
  ℕ, Bool, true, false, not, Option, none, List, [], ◌∷◌, any, keep, map, length, if◌then◌else◌,
  str_eq, leb,
}
use crm_starter.Prelude.Assoc
use crm_starter.Core.Value.{Text, Value, null, text, Runtime, Row}
use crm_starter.Core.Query.{Filter}
use crm_starter.Core.Results.{Result, ok, raise, too_many_rows, ◌>>=◌}
use crm_starter.Core.Aggregates.{Agg, Measure, AggSpec, rows_query, spec_filter}
use crm_starter.Providers.Local.Aggregate.{
  column, group_key, keys_eq, py_add, lesser, greater, finish, run_aggregate,
}
use crm_starter.Providers.Union.{Source, Union, split_optional, visited, list}

-- What a source answers to a group-by request.
abbrev pub Aggregator : Type 0
Aggregator = Source → AggSpec → Result (List Row)

abbrev pub is_avg : Agg → Bool
is_avg Agg.avg = true
is_avg _ = false

-- One measure of two parts of a group.
unfoldable pub combine_value : Runtime → Agg → Value → Value → Result Value
combine_value rt agg null b = ok b
combine_value rt agg a null = ok a
combine_value rt Agg.count a b = py_add a b
combine_value rt Agg.sum a b = py_add a b
combine_value rt Agg.min a b = ok (lesser rt a b)
combine_value rt _ a b = ok (greater rt a b)

-- `_combine`: the row of a group with that of another source folded into it.
unfoldable pub combine : Runtime → List Measure → Row → Row → Row → Result Row
unfolding combine_value
combine rt [] left right out = ok out
combine rt (m ∷ ms) left right out =
    combine_value rt m.agg (column left m.alias) (column right m.alias)
    >>= (λ v. combine rt ms left right (Assoc.insert m.alias v out))

-- `merged[key] = ...` for the row of one group.
unfoldable pub merge_row : Runtime → AggSpec → Row → List Row → Result (List Row)
unfolding combine keys_eq
merge_row rt spec entry [] = ok (entry ∷ [])
merge_row rt spec entry (row ∷ merged) =
    let later = merge_row rt spec entry merged >>= (λ rest. ok (row ∷ rest)) in
    let joined = combine rt spec.measures row entry row >>= (λ both. ok (both ∷ merged)) in
    if keys_eq (group_key spec.group_by row) (group_key spec.group_by entry) then joined else later

unfoldable pub merge_rows : Runtime → AggSpec → List Row → List Row → Result (List Row)
unfolding merge_row
merge_rows rt spec [] merged = ok merged
merge_rows rt spec (entry ∷ entries) merged =
    merge_row rt spec entry merged >>= (λ more. merge_rows rt spec entries more)

abbrev pub by_source : Union → AggSpec → Bool
by_source u spec = any (str_eq u.source_field) spec.group_by

-- The request to each source: its order and its limit would drop groups of the merged answer.
abbrev pub inner_spec : Union → AggSpec → Option Filter → AggSpec
inner_spec u spec remaining = record spec {
  group_by = keep (λ g. not (str_eq g u.source_field)) spec.group_by;
  filter = remaining;
  scope = none;
  sort = [];
  limit = none;
}

-- The groups of a source, under its label where the source is asked for.
abbrev pub labelled : Union → AggSpec → Text → List Row → List Row
labelled u spec label rows =
    if by_source u spec then map (Assoc.insert u.source_field (text label)) rows else rows

-- All sources are asked before anything is merged.
unfoldable pub gather_groups :
    Union → AggSpec → Aggregator → List Source → AggSpec → Result (List (List Row))
gather_groups u spec ask [] inner = ok []
gather_groups u spec ask (s ∷ sources) inner = ask s inner >>= (λ rows.
    gather_groups u spec ask sources inner >>= (λ rest. ok (labelled u spec s.label rows ∷ rest)))

unfoldable pub merge_all : Runtime → AggSpec → List (List Row) → List Row → Result (List Row)
unfolding merge_rows
merge_all rt spec [] merged = ok merged
merge_all rt spec (rows ∷ results) merged =
    merge_rows rt spec rows merged >>= (λ more. merge_all rt spec results more)

-- An average merges rows, under the budget of a list.
unfoldable pub aggregate_locally :
    Runtime → (Value → ℕ → Value) → Union → AggSpec → Result (List Row)
aggregate_locally rt divide u spec = list rt u (rows_query spec u.max_rows) >>= (λ page.
    if leb u.max_rows (length page.items)
    then raise too_many_rows
    else run_aggregate rt divide spec page.items)

-- The answer once the sources to visit are known.
unfoldable pub aggregate_from :
    Runtime
    → (Value → ℕ → Value)
    → Union
    → Aggregator
    → AggSpec
    → List Source
    → Option Filter
    → Result (List Row)
aggregate_from rt divide u ask spec [] remaining = ok []
aggregate_from rt divide u ask spec (s ∷ sources) remaining =
    if any (λ m. is_avg m.agg) spec.measures
    then aggregate_locally rt divide u spec
    else gather_groups u spec ask (s ∷ sources) (inner_spec u spec remaining)
      >>= (λ results. merge_all rt spec results [] >>= (λ merged. ok (finish rt spec merged)))

unfoldable pub aggregate :
    Runtime → (Value → ℕ → Value) → Union → Aggregator → AggSpec → Result (List Row)
aggregate rt divide u ask spec =
    split_optional rt u (spec_filter spec)
    >>= (λ r. aggregate_from rt divide u ask spec (visited u r.0) r.1)
