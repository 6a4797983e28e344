-- ===== src/Providers/Local/Aggregate.antt =====
-- run_aggregate of app/providers/local.py: the groups of rows, and what is measured of each.
use crm_starter.Prelude.{
  ℕ, Bool, true, false, ◌&&◌, String, Option, none, some, List, [], ◌∷◌, ◌++◌, length, take, keep,
  map, if◌then◌else◌,
}
use crm_starter.Prelude.Int.{pos, ◌+ℤ◌}
use crm_starter.Prelude.Assoc
use crm_starter.Core.Value.{Value, null, bool, num, text, Runtime, Row, get, py_eq, int_of}
use crm_starter.Core.Results.{Result, ok, raise, type_error, ◌>>=◌}
use crm_starter.Core.Aggregates.{Agg, is_count, Measure, AggSpec, spec_filter}
use crm_starter.Providers.Local.{key_lt, apply_filter, apply_sort}

-- An absent column reads as None.
abbrev pub column : Row → String → Value
column row f = elim (get row f) [ none ↦ null | some v ↦ v ]

abbrev pub group_key : List String → Row → List Value
group_key fields row = map (column row) fields

-- `==` of two tuples.
unfoldable pub keys_eq : List Value → List Value → Bool
keys_eq [] [] = true
keys_eq (v ∷ vs) (w ∷ ws) = py_eq v w && keys_eq vs ws
keys_eq _ _ = false

abbrev pub Buckets : Type 0
Buckets = List (List Value × List Row)

-- `buckets.setdefault(key, []).append(row)`
unfoldable pub put_row : List Value → Row → Buckets → Buckets
put_row key row [] = (key, row ∷ []) ∷ []
put_row key row ((k, group) ∷ buckets) =
    let later = put_row key row buckets in
    if keys_eq k key then (k, group ++ row ∷ []) ∷ buckets else (k, group) ∷ later

unfoldable pub bucket_all : List String → List Row → Buckets → Buckets
unfolding put_row
bucket_all fields [] buckets = buckets
bucket_all fields (row ∷ rows) buckets =
    bucket_all fields rows (put_row (group_key fields row) row buckets)

abbrev pub is_value : Value → Bool
is_value null = false
is_value v = true

-- The values of a column that are there and not None.
abbrev pub measured : String → List Row → List Value
measured field group = keep is_value (map (λ r. column r field) group)

-- `a + b`; a TypeError where there is no sum.
unfoldable pub py_add : Value → Value → Result Value
py_add (num a) (num b) = ok (num (a +ℤ b))
py_add (num a) (bool b) = ok (num (a +ℤ int_of b))
py_add (bool a) (num b) = ok (num (int_of a +ℤ b))
py_add (bool a) (bool b) = ok (num (int_of a +ℤ int_of b))
py_add (text a) (text b) = ok (text (a ++ b))
py_add _ _ = raise type_error

-- `sum(values)`, from what is summed so far.
unfoldable pub sum_from : Value → List Value → Result Value
sum_from total [] = ok total
sum_from total (v ∷ vs) = py_add total v >>= (λ t. sum_from t vs)

-- `min` and `max` by the sort key keep the first of the values that tie.
abbrev pub lesser : Runtime → Value → Value → Value
lesser rt a b = if key_lt rt (some b) (some a) then b else a

abbrev pub greater : Runtime → Value → Value → Value
greater rt a b = if key_lt rt (some a) (some b) then b else a

unfoldable pub fold_values : (Value → Value → Value) → Value → List Value → Value
fold_values pick best [] = best
fold_values pick best (v ∷ vs) = fold_values pick (pick best v) vs

-- A measure of the values that are there; `divide` is `/`, whose quotients are no integers.
abbrev pub of_values : Runtime → (Value → ℕ → Value) → Agg → List Value → Result Value
of_values rt divide agg [] = ok null
of_values rt divide Agg.avg (v ∷ vs) =
    sum_from (num (pos 0)) (v ∷ vs) >>= (λ total. ok (divide total (length (v ∷ vs))))
of_values rt divide Agg.min (v ∷ vs) = ok (fold_values (lesser rt) v vs)
of_values rt divide Agg.max (v ∷ vs) = ok (fold_values (greater rt) v vs)
of_values rt divide agg (v ∷ vs) = sum_from (num (pos 0)) (v ∷ vs)

unfoldable pub measure_of : Runtime → (Value → ℕ → Value) → Measure → List Row → Result Value
measure_of rt divide m group =
    if is_count m.agg
    then ok (num (pos (length group)))
    else of_values rt divide m.agg (measured m.field group)

-- `dict(zip(group_by, key))`
unfoldable pub zip_row : List String → List Value → Row → Row
zip_row (f ∷ fs) (v ∷ vs) entry = zip_row fs vs (Assoc.insert f v entry)
zip_row fs vs entry = entry

unfoldable pub put_measures :
    Runtime → (Value → ℕ → Value) → List Measure → List Row → Row → Result Row
put_measures rt divide [] group entry = ok entry
put_measures rt divide (m ∷ ms) group entry =
    measure_of rt divide m group
    >>= (λ v. put_measures rt divide ms group (Assoc.insert m.alias v entry))

unfoldable pub entries : Runtime → (Value → ℕ → Value) → AggSpec → Buckets → Result (List Row)
entries rt divide spec [] = ok []
entries rt divide spec ((key, group) ∷ buckets) =
    put_measures rt divide spec.measures group (zip_row spec.group_by key [])
    >>= (λ entry. entries rt divide spec buckets >>= (λ rest. ok (entry ∷ rest)))

abbrev pub up_to : Option ℕ → List Row → List Row
up_to none rows = rows
up_to (some n) rows = take n rows

-- Sorted and cut.
abbrev pub finish : Runtime → AggSpec → List Row → List Row
finish rt spec rows = up_to spec.limit (apply_sort rt rows spec.sort)

unfoldable pub run_aggregate :
    Runtime → (Value → ℕ → Value) → AggSpec → List Row → Result (List Row)
run_aggregate rt divide spec rows =
    entries rt divide spec (bucket_all spec.group_by (apply_filter rt rows (spec_filter spec)) [])
    >>= (λ out. ok (finish rt spec out))
