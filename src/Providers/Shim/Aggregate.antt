-- ===== src/Providers/Shim/Aggregate.antt =====
-- aggregate of app/providers/shim.py: a backend that cannot group is asked for its rows.
use crm_starter.Prelude.{ℕ, ◌+◌, ltb, Option, none, some, List, length, if◌then◌else◌}
use crm_starter.Core.Value.{Value, Runtime, Row}
use crm_starter.Core.Query.{Page}
use crm_starter.Core.Results.{Result, raise, too_many_rows, ◌>>=◌}
use crm_starter.Core.Aggregates.{AggSpec, rows_query}
use crm_starter.Providers.Local.Aggregate.{run_aggregate}
use crm_starter.Providers.Shim.{Shim, list}

-- The rows of the page, grouped, unless they are over the budget.
abbrev pub group_page :
    Runtime → (Value → ℕ → Value) → Shim → AggSpec → Page Row → Result (List Row)
group_page rt divide s spec page =
    if ltb s.max_rows (length page.items)
    then raise too_many_rows
    else run_aggregate rt divide spec page.items

abbrev pub grouped :
    Runtime
    → (Value → ℕ → Value)
    → Shim
    → AggSpec
    → Option (Result (Page Row))
    → Option (Result (List Row))
grouped rt divide s spec none = none
grouped rt divide s spec (some r) = some (r >>= group_page rt divide s spec)

-- `ask` is the group-by request to the backend itself.
unfoldable pub aggregate :
    Runtime
    → (Value → ℕ → Value)
    → Shim
    → (AggSpec → Result (List Row))
    → AggSpec
    → Option (Result (List Row))
aggregate rt divide s ask spec =
    if s.inner.capabilities.aggregate
    then some (ask spec)
    else grouped rt divide s spec (list rt s (rows_query spec (s.max_rows + 1)))
