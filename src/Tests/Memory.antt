-- ===== src/Tests/Memory.antt =====
-- Writes of the in-memory provider at concrete inputs.
use crm_starter.Prelude.{◌≡◌, refl, none, some, List, [], ◌∷◌}
use crm_starter.Prelude.Int.{pos}
use mathlib.Core.List.{foldl}
use crm_starter.Prelude.Assoc
use crm_starter.Core.Value.{Row, num, text, py_eq}
use crm_starter.Core.Results.{ok, success}
use crm_starter.Providers.Memory.{Memory, get_row, coerce_pk, create}
use crm_starter.Providers.Memory.Writes.{
  IsKeyed, Write, creates, updates, updates_if, deletes, apply, apply_all-IsKeyed,
  create_overwrites,
}
use crm_starter.Tests.Data.{cities, parse_nothing, rome, oslo, row1, row2, city_row}

-- A payload that tries to change the key.
abbrev to_oslo : Row
to_oslo = ("city", text oslo) ∷ ("id", num (pos 9)) ∷ []

abbrev writes : List Write
writes =
    updates (num (pos 1)) to_oslo
    ∷ creates (("city", text rome) ∷ [])
    ∷ deletes (num (pos 2))
    ∷ updates_if (num (pos 3)) to_oslo (("city", text oslo) ∷ [])
    ∷ []

cities-IsKeyed : IsKeyed cities.pk_field cities.rows
unfolding Assoc.lookup
cities-IsKeyed =
    ((num (pos 1), refl, refl), ((num (pos 2), refl, refl), ((num (pos 3), refl, refl), tt)))

apply_all-IsKeyed_example :
    IsKeyed
      (foldl (apply parse_nothing) cities writes).pk_field
      (foldl (apply parse_nothing) cities writes).rows
apply_all-IsKeyed_example = apply_all-IsKeyed parse_nothing cities writes cities-IsKeyed

there : get_row (coerce_pk parse_nothing cities (num (pos 1))) cities.rows ≡ some row1
unfolding coerce_pk get_row py_eq
there = refl

-- Keys 1 and 3 are taken, 2 is free.
abbrev gap : Memory
gap = record cities { rows = (num (pos 1), row1) ∷ (num (pos 3), city_row 3 rome) ∷ [] }

free : get_row (num (pos 2)) gap.rows ≡ none
unfolding get_row py_eq
free = refl

create_overwrites_example :
    (get_row (num (pos 3)) (create gap row2).1.rows ≡ get_row (num (pos 3)) gap.rows)
    × ((create (create gap row2).1 (("city", text oslo) ∷ [])).0
        ≡ ok (
            success (record {
              data_of = Assoc.insert "id" (num (pos 3)) (("city", text oslo) ∷ []);
              pk_field = "id";
            })))
    × (get_row (num (pos 3)) (create (create gap row2).1 (("city", text oslo) ∷ [])).1.rows
        ≡ some (Assoc.insert "id" (num (pos 3)) (("city", text oslo) ∷ [])))
unfolding Assoc.lookup
create_overwrites_example =
    create_overwrites gap 2 row2 (("city", text oslo) ∷ []) refl refl free refl
