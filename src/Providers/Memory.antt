-- ===== src/Providers/Memory.antt =====
-- app/providers/memory.py: rows in a dict, keyed by their primary key. The lock makes each write
-- one step, so a write is a function from the state to a result and the new state.
pub mod Writes
pub mod Reads
use crm_starter.Prelude.{
  ℕ, ◌+◌, Bool, true, false, not, ◌&&◌, ◌||◌, String, Option, none, some, List, [], ◌∷◌, ◌++◌, map,
  any, if◌then◌else◌, ltb, leb, ◌-◌, suc,
}
use crm_starter.Prelude.Int.{ℤ, pos, negsuc}
use crm_starter.Prelude.Assoc
use crm_starter.Core.Value.{
  Text, Value, Runtime, Row, Record, null, bool, num, text, date, datetime, py_eq, get, merge_rows,
}
use crm_starter.Core.Query.{ListQuery, Page}
use crm_starter.Core.Results.{
  Error, not_found, conflict, Result, ok, raise, WriteResult, success, failure,
}
use crm_starter.Providers.Local.{run_query}
use crm_starter.Core.Aggregates.{AggSpec}
use crm_starter.Providers.Local.Aggregate.{run_aggregate}
use crm_starter.Providers.Base.{Capabilities, Reader, stages_of}

-- A `dict` whose keys are values; `True` and `1` are one key, as in Python.
abbrev pub Rows : Type 0
Rows = List (Value × Row)

unfoldable pub get_row : Value → Rows → Option Row
get_row k [] = none
get_row k ((j, row) ∷ rows) = if py_eq j k then some row else get_row k rows

unfoldable pub put_row : Value → Row → Rows → Rows
put_row k row [] = (k, row) ∷ []
put_row k row ((j, old) ∷ rows) =
    if py_eq j k then (j, row) ∷ rows else (j, old) ∷ put_row k row rows

unfoldable pub drop_row : Value → Rows → Rows
drop_row k [] = []
drop_row k ((j, old) ∷ rows) =
    let rest = drop_row k rows in if py_eq j k then rest else (j, old) ∷ rest

pub record Memory : Type 0 where
  pub pk_field : String
  pub autoincrement : Bool
  pub capabilities : Capabilities
  pub rows : Rows
  -- the next key that `itertools.count` gives
  pub counter : ℤ

abbrev pub next_int : ℤ → ℤ
next_int (pos n) = pos (n + 1)
next_int (negsuc n) = if leb 1 n then negsuc (n - 1) else pos 0

-- The counter goes to one past an integer key, wherever it was before.
unfoldable pub bump_counter : Memory → Value → Memory
bump_counter m (num n) = record m { counter = next_int n }
bump_counter m pk = m

-- A text that is no key, and reads as an integer that is one, stands for that integer.
abbrev coerce_missing : (Text → Option ℤ) → Memory → Value → Value
coerce_missing parse_int m (text t) = elim (parse_int t) [
  | none ↦ text t
  | some n ↦ elim (get_row (num n) m.rows) [ none ↦ text t | some row ↦ num n ]
]
coerce_missing parse_int m pk = pk

unfoldable pub coerce_pk : (Text → Option ℤ) → Memory → Value → Value
unfolding get_row
coerce_pk parse_int m pk = elim (get_row pk m.rows) [
  | some row ↦ pk
  | none ↦ coerce_missing parse_int m pk
]

abbrev pub all_rows : Memory → List Row
all_rows m = map (λ e. e.1) m.rows

-- `list`: exactly the stages that the instance claims, and a total only if it claims one.
unfoldable pub list : Runtime → Memory → ListQuery → Page Row
list rt m q =
    let caps = m.capabilities in
    let page = run_query rt (stages_of caps) caps.searchable_fields q (all_rows m) in
    if caps.total_count then page else record page { total = none }

unfoldable pub get_by_pk : (Text → Option ℤ) → Memory → Value → Option Record
unfolding coerce_pk get_row
get_by_pk parse_int m pk = elim (get_row (coerce_pk parse_int m pk) m.rows) [
  | none ↦ none
  | some row ↦ some (record { data_of = row; pk_field = m.pk_field })
]

abbrev pub aggregate : Runtime → (Value → ℕ → Value) → Memory → AggSpec → Result (List Row)
aggregate rt divide m spec = run_aggregate rt divide spec (all_rows m)

abbrev pub as_result : Memory → Row → WriteResult
as_result m row = success (record { data_of = row; pk_field = m.pk_field })

-- A value that is not None.
abbrev pub present : Option Value → Option Value
present none = none
present (some null) = none
present (some v) = some v

abbrev pub store_new : Memory → Value → Row → Result WriteResult × Memory
store_new m pk row =
    (ok (as_result m row), bump_counter (record m { rows = put_row pk row m.rows }) pk)

-- A row with no key takes the counter's; a row whose key is taken is refused.
unfoldable pub create : Memory → Row → Result WriteResult × Memory
create m row = elim (present (get row m.pk_field)) [
  | none ↦
      if m.autoincrement
      then store_new (record m { counter = next_int m.counter }) (num m.counter)
          (Assoc.insert m.pk_field (num m.counter) row)
      else (ok failure, m)
  | some pk ↦ elim (get_row pk m.rows) [
    | some old ↦ (raise conflict, m)
    | none ↦ store_new m pk row
  ]
]

-- `{**existing, **data, pk_field: key}`.
abbrev pub merged_row : Memory → Value → Row → Row → Row
merged_row m key existing changes = Assoc.insert m.pk_field key (merge_rows existing changes)

unfoldable pub update : (Text → Option ℤ) → Memory → Value → Row → Result WriteResult × Memory
update parse_int m pk changes =
    let key = coerce_pk parse_int m pk in
    elim (get_row key m.rows) [
      | none ↦ (raise not_found, m)
      | some existing ↦
          let merged = merged_row m key existing changes in
          (ok (as_result m merged), record m { rows = put_row key merged m.rows })
    ]

-- `existing.get(name) != value` for some expected column.
unfoldable pub differs : Row → Row → Bool
differs existing [] = false
differs existing ((name, value) ∷ expect) =
    not (py_eq (elim (get existing name) [ none ↦ null | some v ↦ v ]) value)
    || differs existing expect

unfoldable pub update_if :
    (Text → Option ℤ) → Memory → Value → Row → Row → Result (Option WriteResult) × Memory
update_if parse_int m pk changes expect =
    let key = coerce_pk parse_int m pk in
    elim (get_row key m.rows) [
      | none ↦ (raise not_found, m)
      | some existing ↦
          let merged = merged_row m key existing changes in
          if differs existing expect
          then (ok none, m)
          else (ok (some (as_result m merged)), record m { rows = put_row key merged m.rows })
    ]

unfoldable pub delete : (Text → Option ℤ) → Memory → Value → Result WriteResult × Memory
delete parse_int m pk =
    let key = coerce_pk parse_int m pk in
    elim (get_row key m.rows) [
      | none ↦ (raise not_found, m)
      | some removed ↦ (ok (as_result m removed), record m { rows = drop_row key m.rows })
    ]

-- The reading half of this provider, while its rows stand still.
abbrev pub reader : Runtime → Memory → Reader
reader rt m = record { capabilities = m.capabilities; list = λ q. ok (list rt m q) }
