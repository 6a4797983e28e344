-- ===== src/Providers/Sequence/Creation.antt =====
-- A record that is created through the sequencing wrapper over the in-memory provider.
use crm_starter.Prelude.{
  ◌≡◌, ◌∙◌, refl, ap, true, false, String, Option, none, some, [], ◌∷◌, ◌++◌, if◌then◌else◌, str_eq,
}
use mathlib.Core.Path.{subst}
use package.text.Mathlib.TextEquality.{eq_iff}
use crm_starter.Prelude.Int.{ℤ}
use crm_starter.Prelude.Assoc
use crm_starter.Prelude.Assoc.{lookup-insert}
use crm_starter.Core.Value.{Text, Value, num, text, Runtime, Row, get, str, merge_rows}
use crm_starter.Core.Value.Equality.{py_eq_refl}
use crm_starter.Core.Results.{Result, ok, WriteResult, success}
use crm_starter.Providers.Memory.{
  Memory, get_row, put_row, coerce_pk, merged_row, as_result, next_int, bump_counter,
}
use crm_starter.Providers.Memory as Memory_of
use crm_starter.Providers.Memory.Writes.{get_row-put_row}
use crm_starter.Providers.Sequence.{Writer, truthy, attach, create}

abbrev pub memory_writer : (Text → Option ℤ) → Writer Memory
memory_writer parse_int = record { create = Memory_of.create; update = Memory_of.update parse_int }

update_here :
    (parse_int : Text → Option ℤ) (m : Memory) (k : Value) (changes existing : Row)
    → get_row (coerce_pk parse_int m k) m.rows ≡ some existing
    → Memory_of.update parse_int m k changes ≡ (
      ok (as_result m (merged_row m (coerce_pk parse_int m k) existing changes)),
      record m {
        rows =
            put_row
              (coerce_pk parse_int m k)
              (merged_row m (coerce_pk parse_int m k) existing changes)
              m.rows;
      },
    )
unfolding Memory_of.update
update_here parse_int m k changes existing h = rw (Memory_of.update, h) refl

update_at :
    (parse_int : Text → Option ℤ) (m : Memory) (k key : Value) (changes existing : Row)
    → coerce_pk parse_int m k ≡ key
    → get_row key m.rows ≡ some existing
    → Memory_of.update parse_int m k changes ≡ (
      ok (as_result m (merged_row m key existing changes)),
      record m { rows = put_row key (merged_row m key existing changes) m.rows },
    )
update_at parse_int m k key changes existing e =
    subst
      (λ x.
        get_row x m.rows ≡ some existing
        → Memory_of.update parse_int m k changes ≡ (
          ok (as_result m (merged_row m x existing changes)),
          record m { rows = put_row x (merged_row m x existing changes) m.rows },
        ))
      e (update_here parse_int m k changes existing)

module _ (rt : Runtime) (parse_int : Text → Option ℤ) (column : String) (prefix : Text) (m : Memory)
    (row : Row) (auto : m.autoincrement ≡ true) (unkeyed : get row m.pk_field ≡ none)
    (unnamed : truthy (get row column) ≡ false) (other : str_eq m.pk_field column ≡ false) where
  abbrev key : Value
  key = num m.counter

  -- The row as the first write stores it, and what is stored then.
  abbrev bare : Row
  bare = Assoc.insert m.pk_field key row

  abbrev stored : Memory
  stored = record m { rows = put_row key bare m.rows; counter = next_int m.counter }

  abbrev changes : Row
  changes = (column, text (prefix ++ str rt key)) ∷ []

  abbrev pub referenced : Row
  referenced = merged_row m key bare changes

  created : Memory_of.create m row ≡ (ok (as_result m bare), stored)
  unfolding Memory_of.create bump_counter
  created = rw (Memory_of.create, unkeyed, auto) refl

  bare-pk : get bare m.pk_field ≡ some key
  bare-pk =
      lookup-insert m.pk_field m.pk_field key row
      ∙ ap (λ b. if b then some key else get row m.pk_field) ((eq_iff m.pk_field m.pk_field).1 refl)

  there : get_row key stored.rows ≡ some bare
  there =
      get_row-put_row key key bare m.rows
      ∙ ap (λ b. if b then some bare else get_row key m.rows) (py_eq_refl key)

  coerced : coerce_pk parse_int stored key ≡ key
  unfolding coerce_pk
  coerced = rw (coerce_pk, there) refl

  updated :
      Memory_of.update parse_int stored key changes
      ≡ (ok (as_result m referenced), record stored { rows = put_row key referenced stored.rows })
  updated = update_at parse_int stored key key changes bare coerced there

  abbrev Outcome : Type 0
  Outcome = Result WriteResult × Memory

  outcome : Outcome
  outcome = (
    ok (success (record { data_of = referenced; pk_field = m.pk_field })),
    record stored { rows = put_row key referenced stored.rows },
  )

  attached :
      attach rt
        (memory_writer parse_int)
        column
        prefix
        stored
        (as_result m bare)
        (record { data_of = bare; pk_field = m.pk_field })
        key
      ≡ outcome
  unfolding attach outcome
  attached =
      rw (attach, updated)
        (ap (λ x. (ok (success (record { data_of = referenced; pk_field = m.pk_field })), x.1))
          updated)

  -- After both writes.
  create-update : create rt (memory_writer parse_int) column prefix m row ≡ outcome
  unfolding create
  create-update =
      rw (unnamed, created, bare-pk)
        (ap
            (λ s.
              attach rt (memory_writer parse_int) column prefix s (as_result m bare)
                (record { data_of = bare; pk_field = m.pk_field }) key)
            (ap (λ x. x.1) created)
          ∙ attached)

  reference : get referenced column ≡ some (text (prefix ++ str rt key))
  unfolding merge_rows
  reference =
      lookup-insert m.pk_field column key (Assoc.insert column (text (prefix ++ str rt key)) bare)
      ∙ ap
          (λ b.
            if b
            then some key
            else get (Assoc.insert column (text (prefix ++ str rt key)) bare) column)
          other
      ∙ lookup-insert column column (text (prefix ++ str rt key)) bare
      ∙ ap (λ b. if b then some (text (prefix ++ str rt key)) else get bare column)
          ((eq_iff column column).1 refl)

  referenced-pk : get referenced m.pk_field ≡ some key
  referenced-pk =
      lookup-insert m.pk_field m.pk_field key (merge_rows bare changes)
      ∙ ap (λ b. if b then some key else get (merge_rows bare changes) m.pk_field)
          ((eq_iff m.pk_field m.pk_field).1 refl)

-- A row that is created with no key and no reference of its own, through the wrapper over a provider
-- that counts its keys, is answered and stored under the counter's key, with the prefix and that key
-- as its reference.
pub create-referenced :
    (rt : Runtime) (parse_int : Text → Option ℤ) (column : String) (prefix : Text) (m : Memory)
    (row : Row)
    → m.autoincrement ≡ true
    → get row m.pk_field ≡ none
    → truthy (get row column) ≡ false
    → str_eq m.pk_field column ≡ false
    → (made : Row) × (get made m.pk_field ≡ some (num m.counter))
      × (get made column ≡ some (text (prefix ++ str rt (num m.counter))))
      × ((create rt (memory_writer parse_int) column prefix m row).0
          ≡ ok (success (record { data_of = made; pk_field = m.pk_field })))
      × (get_row (num m.counter) (create rt (memory_writer parse_int) column prefix m row).1.rows
          ≡ some made)
unfolding outcome
create-referenced rt parse_int column prefix m row auto unkeyed unnamed other =
    let same = create-update rt parse_int column prefix m row auto unkeyed unnamed other in
    let made = referenced rt parse_int column prefix m row auto unkeyed unnamed other in
    (
      made,
      referenced-pk rt parse_int column prefix m row auto unkeyed unnamed other,
      reference rt parse_int column prefix m row auto unkeyed unnamed other,
      ap (λ x. x.0) same,
      ap (λ x. get_row (num m.counter) x.1.rows) same
          ∙ get_row-put_row (num m.counter) (num m.counter) made
              (stored rt parse_int column prefix m row auto unkeyed unnamed other).rows
          ∙ ap
              (λ b.
                if b
                then some made
                else get_row (num m.counter)
                    (stored rt parse_int column prefix m row auto unkeyed unnamed other).rows)
              (py_eq_refl (num m.counter)),
    )
