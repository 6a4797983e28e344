-- ===== src/Core/Aggregates.antt =====
-- The aggregate specifications of app/core/query.py: what is measured of each group.
use Prim.Native.String
use crm_starter.Prelude.{ℕ, String, Bool, true, false, Option, List, [], ◌∷◌, if◌then◌else◌, str_eq}
use crm_starter.Core.Query.{Filter, Sort, ListQuery, default_query, and_}
use crm_starter.Core.Results.{Result, ok, raise, value_error}

pub data Agg : Type 0 where
  count sum avg min max : Agg

-- A measure with no field has the empty name for one.
pub record Measure : Type 0 where
  pub agg : Agg
  pub field : String
  pub alias : String

abbrev pub agg_name : Agg → String
agg_name count = "count"
agg_name sum = "sum"
agg_name avg = "avg"
agg_name min = "min"
agg_name max = "max"

abbrev pub is_count : Agg → Bool
is_count count = true
is_count _ = false

-- `Measure.__post_init__`: all but a count want a field, and the alias has a default.
unfoldable pub make_measure : Agg → String → String → Result Measure
make_measure agg field alias =
    let default =
      String.◌++◌ (agg_name agg) (String.◌++◌ "_" (if str_eq field "" then "all" else field)) in
    let named = if str_eq alias "" then default else alias in
    if is_count agg
    then ok (record { agg = agg; field = field; alias = named })
    else if str_eq field ""
    then raise value_error
    else ok (record { agg = agg; field = field; alias = named })

pub record AggSpec : Type 0 where
  pub group_by : List String
  pub measures : List Measure
  pub filter : Option Filter
  pub scope : Option Filter
  pub sort : List Sort
  pub limit : Option ℕ

unfoldable pub spec_filter : AggSpec → Option Filter
unfolding and_
spec_filter spec = and_ (spec.filter ∷ spec.scope ∷ [])

-- The query for the rows that a request is over, at most `n` of them.
abbrev pub rows_query : AggSpec → ℕ → ListQuery
rows_query spec n = record default_query {
  filter = spec.filter;
  scope = spec.scope;
  page_size = n;
  with_total = false;
}
