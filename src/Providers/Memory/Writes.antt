-- ===== src/Providers/Memory/Writes.antt =====
-- What a write of the in-memory provider changes, and what it leaves alone.
use text.Mathlib.TextEquality.{eq_iff}
use crm_starter.Prelude.{
  ℕ, ◌+◌, ◌≡◌, ◌∙◌, refl, ap, sym, Bool, true, false, String, Option, none, some, List, [], ◌∷◌,
  arith, if◌then◌else◌, inl, inr, Bool-cases, Option-cases,
}
use crm_starter.Prelude.Int.{ℤ, pos}
use crm_starter.Prelude.Assoc
use mathlib.Core.List.{foldl}
use crm_starter.Core.Value.{Text, Value, Row, null, num, py_eq, get}
use crm_starter.Core.Results.{Result, ok, WriteResult, success}
use crm_starter.Core.Value.Equality.{canon, py_eq_iff, py_eq_refl}
use crm_starter.Providers.Memory.{
  Rows, get_row, put_row, drop_row, Memory, coerce_pk, create, update, update_if, delete,
  merged_row, differs, bump_counter, present, store_new, next_int, as_result,
}

pub get_row-put_row :
    (k j : Value) (row : Row) (rows : Rows)
    → get_row j (put_row k row rows) ≡ (if py_eq k j then some row else get_row j rows)
unfolding get_row put_row
get_row-put_row k j row [] = refl
get_row-put_row k j row ((i, old) ∷ rows) =
    ground (arith, py_eq_iff k j, py_eq_iff i k, py_eq_iff i j, get_row-put_row k j row rows)

pub get_row-drop_row :
    (k j : Value) (rows : Rows)
    → get_row j (drop_row k rows) ≡ (if py_eq k j then none else get_row j rows)
unfolding get_row drop_row
get_row-drop_row k j [] = ground arith
get_row-drop_row k j ((i, old) ∷ rows) =
    ground (arith, py_eq_iff k j, py_eq_iff i k, py_eq_iff i j, get_row-drop_row k j rows)

-- Each stored row holds, in the key column, the key that it is stored under.
abbrev pub IsKeyed : String → Rows → Type 0
IsKeyed pk_field [] = Unit
IsKeyed pk_field ((k, row) ∷ rows) =
    ((key : Value) × (get row pk_field ≡ some key) × (canon key ≡ canon k)) × IsKeyed pk_field rows

put_row-IsKeyed :
    (pk_field : String) (k key : Value) (row : Row) (rows : Rows)
    → get row pk_field ≡ some key
    → canon key ≡ canon k
    → IsKeyed pk_field rows
    → IsKeyed pk_field (put_row k row rows)
unfolding put_row
put_row-IsKeyed f k key row [] e same h = ((key, e, same), tt)
put_row-IsKeyed f k key row ((i, old) ∷ rows) e same h = elim (Bool-cases (py_eq i k)) [
  | inl here ↦ rw here ((key, e, same ∙ sym ((py_eq_iff i k).0 here)), h.1)
  | inr there ↦ rw there (h.0, put_row-IsKeyed f k key row rows e same h.1)
]

drop_row-IsKeyed :
    (pk_field : String) (k : Value) (rows : Rows)
    → IsKeyed pk_field rows
    → IsKeyed pk_field (drop_row k rows)
unfolding drop_row
drop_row-IsKeyed f k [] h = tt
drop_row-IsKeyed f k ((i, old) ∷ rows) h = elim (Bool-cases (py_eq i k)) [
  | inl here ↦ rw here (drop_row-IsKeyed f k rows h.1)
  | inr there ↦ rw there (h.0, drop_row-IsKeyed f k rows h.1)
]

get-insert_self : (row : Row) (f : String) (v : Value) → get (Assoc.insert f v row) f ≡ some v
get-insert_self row f v = Assoc.lookup-insert f f v row ∙ ground (arith, eq_iff f f)

-- The writes of a client.
pub data Write : Type 0 where
  creates : Row → Write
  updates : Value → Row → Write
  updates_if : Value → Row → Row → Write
  deletes : Value → Write

module _ (parse_int : Text → Option ℤ) where
  abbrev pub apply : Memory → Write → Memory
  apply m (creates row) = (create m row).1
  apply m (updates pk changes) = (update parse_int m pk changes).1
  apply m (updates_if pk changes expect) = (update_if parse_int m pk changes expect).1
  apply m (deletes pk) = (delete parse_int m pk).1

  bump_counter-rows :
      (m : Memory) (pk : Value)
      → ((bump_counter m pk).rows ≡ m.rows) × ((bump_counter m pk).pk_field ≡ m.pk_field)
  unfolding bump_counter
  bump_counter-rows m (num n) = (refl, refl)
  bump_counter-rows m _ = (refl, refl)

  present-eq : (o : Option Value) (v : Value) → present o ≡ some v → o ≡ some v
  present-eq none v h = cc
  present-eq (some null) v h = cc
  present-eq (some (num n)) v h = h
  present-eq (some _) v h = h

  new_row :
      (m : Memory) (pk : Value) (row : Row)
      → ((store_new m pk row).1.rows ≡ put_row pk row m.rows)
        × ((store_new m pk row).1.pk_field ≡ m.pk_field)
  new_row m pk row = bump_counter-rows (record m { rows = put_row pk row m.rows }) pk

  -- A write either changes no row, stores one row that holds its key, or drops one.
  data Effect (m : Memory) : Memory → Type 0 where
    kept : {m' : Memory} → m'.pk_field ≡ m.pk_field → m'.rows ≡ m.rows → Effect m m'
    stored :
        {m' : Memory} (k : Value) (row : Row)
        → m'.pk_field ≡ m.pk_field
        → get row m.pk_field ≡ some k
        → m'.rows ≡ put_row k row m.rows
        → Effect m m'
    dropped :
        {m' : Memory} (k : Value)
        → m'.pk_field ≡ m.pk_field
        → m'.rows ≡ drop_row k m.rows
        → Effect m m'

  Effect-if :
      {m : Memory} (b : Bool) (x y : Result WriteResult × Memory)
      → Effect m x.1
      → Effect m y.1
      → Effect m (if b then x else y).1
  Effect-if true x y ex ey = ex
  Effect-if false x y ex ey = ey

  create-Effect : (m : Memory) (row : Row) → Effect m (create m row).1
  unfolding create
  create-Effect m row = elim (Option-cases (present (get row m.pk_field))) [
    | inl absent ↦
        let row' : Row = Assoc.insert m.pk_field (num m.counter) row in
        let n = new_row (record m { counter = next_int m.counter }) (num m.counter) row' in
        rw (absent, create)
          (Effect-if m.autoincrement _ _
            (stored (num m.counter) row' n.1 (get-insert_self row m.pk_field (num m.counter)) n.0)
            (kept refl refl))
    | inr (pk, given) ↦ elim (Option-cases (get_row pk m.rows)) [
      | inl free ↦
          let n = new_row m pk row in
          rw (given, create)
            (simp free (stored pk row n.1 (present-eq (get row m.pk_field) pk given) n.0))
      | inr (old, taken) ↦ rw (given, create) (simp taken (kept refl refl))
    ]
  ]

  update-Effect :
      (m : Memory) (pk : Value) (changes : Row) → Effect m (update parse_int m pk changes).1
  unfolding update
  update-Effect m pk changes = elim (Option-cases (get_row (coerce_pk parse_int m pk) m.rows)) [
    | inl missing ↦ simp (missing, update) (kept refl refl)
    | inr (existing, there) ↦
        simp (there, update)
          (stored (coerce_pk parse_int m pk) _ refl (get-insert_self _ m.pk_field _) refl)
  ]

  update_if-Effect :
      (m : Memory) (pk : Value) (changes expect : Row)
      → Effect m (update_if parse_int m pk changes expect).1
  unfolding update_if
  update_if-Effect m pk changes expect =
      elim (Option-cases (get_row (coerce_pk parse_int m pk) m.rows)) [
        | inl missing ↦ simp (missing, update_if) (kept refl refl)
        | inr (existing, there) ↦ elim (Bool-cases (differs existing expect)) [
          | inl other ↦ simp (there, other, update_if) (kept refl refl)
          | inr same ↦
              simp (there, same, update_if)
                (stored (coerce_pk parse_int m pk) _ refl (get-insert_self _ m.pk_field _) refl)
        ]
      ]

  delete-Effect : (m : Memory) (pk : Value) → Effect m (delete parse_int m pk).1
  unfolding delete
  delete-Effect m pk = elim (Option-cases (get_row (coerce_pk parse_int m pk) m.rows)) [
    | inl missing ↦ simp (missing, delete) (kept refl refl)
    | inr (removed, there) ↦ simp (there, delete) (dropped (coerce_pk parse_int m pk) refl refl)
  ]

  apply-Effect : (m : Memory) (w : Write) → Effect m (apply m w)
  apply-Effect m (creates row) = create-Effect m row
  apply-Effect m (updates pk changes) = update-Effect m pk changes
  apply-Effect m (updates_if pk changes expect) = update_if-Effect m pk changes expect
  apply-Effect m (deletes pk) = delete-Effect m pk

  Effect-IsKeyed :
      {m m' : Memory} → Effect m m' → IsKeyed m.pk_field m.rows → IsKeyed m'.pk_field m'.rows
  Effect-IsKeyed (kept f r) h = rw (f, r) h
  Effect-IsKeyed {m} (stored k row f e r) h =
      rw (f, r) (put_row-IsKeyed m.pk_field k k row m.rows e refl h)
  Effect-IsKeyed {m} (dropped k f r) h = rw (f, r) (drop_row-IsKeyed m.pk_field k m.rows h)

  -- After any writes, with whatever payloads, each row still holds the key that it is stored under:
  -- a payload never rewrites a primary key.
  pub apply_all-IsKeyed :
      (m : Memory) (writes : List Write)
      → IsKeyed m.pk_field m.rows
      → IsKeyed (foldl apply m writes).pk_field (foldl apply m writes).rows
  apply_all-IsKeyed m [] h = h
  apply_all-IsKeyed m (w ∷ writes) h =
      apply_all-IsKeyed (apply m w) writes (Effect-IsKeyed (apply-Effect m w) h)

  -- `update_if` on a row that is there: if an expected column differs from the stored one it answers
  -- None and changes nothing, else it stores and answers what `update` does.
  pub update_if_guards_update :
      (m : Memory) (pk : Value) (changes expect : Row) (existing : Row)
      → get_row (coerce_pk parse_int m pk) m.rows ≡ some existing
      → update_if parse_int m pk changes expect ≡ (
          if differs existing expect then (ok none, m) else (
            ok (some (as_result m (merged_row m (coerce_pk parse_int m pk) existing changes))),
            (update parse_int m pk changes).1,
          ))
  unfolding update update_if
  update_if_guards_update m pk changes expect existing there = ground (arith, there)

  -- A row that is updated is found again under its key with the changes applied, and the rows under
  -- other keys are as before.
  pub get_row-update :
      (m : Memory) (pk j : Value) (changes existing : Row)
      → get_row (coerce_pk parse_int m pk) m.rows ≡ some existing
      → get_row j (update parse_int m pk changes).1.rows ≡ (
          if py_eq (coerce_pk parse_int m pk) j
          then some (merged_row m (coerce_pk parse_int m pk) existing changes)
          else get_row j m.rows)
  unfolding update
  get_row-update m pk j changes existing there =
      rw (there, update) (get_row-put_row (coerce_pk parse_int m pk) j _ m.rows)

-- `m` after a row is stored under the free integer key `n`.
abbrev keyed : Memory → ℕ → Row → Memory
keyed m n row = record m { rows = put_row (num (pos n)) row m.rows; counter = pos (n + 1) }

create_keyed :
    (m : Memory) (n : ℕ) (row : Row)
    → get row m.pk_field ≡ some (num (pos n))
    → get_row (num (pos n)) m.rows ≡ none
    → (create m row).1 ≡ keyed m n row
unfolding create bump_counter
create_keyed m n row given free = rw (given, create) (simp free)

create_unkeyed :
    (m : Memory) (n : ℕ) (fresh : Row)
    → m.autoincrement ≡ true
    → m.counter ≡ pos n
    → get fresh m.pk_field ≡ none
    → let made = Assoc.insert m.pk_field (num (pos n)) fresh in
      ((create m fresh).0 ≡ ok (success (record { data_of = made; pk_field = m.pk_field })))
      × ((create m fresh).1.rows ≡ put_row (num (pos n)) made m.rows)
unfolding create bump_counter
create_unkeyed m n fresh auto next absent = ground (arith, auto, next, absent)

next_key_ne : (n : ℕ) → py_eq (num (pos n)) (num (pos (n + 1))) ≡ false
unfolding py_eq
next_key_ne n = ground arith

-- The counter follows the last integer key given, not the largest. So once a row with key n + 1
-- is stored, and a client then creates one with the free key n, the next row created without a key
-- is given n + 1: it takes the place of the stored row, and the write reports success.
pub create_overwrites :
    (m : Memory) (n : ℕ) (row fresh : Row)
    → m.autoincrement ≡ true
    → get row m.pk_field ≡ some (num (pos n))
    → get_row (num (pos n)) m.rows ≡ none
    → get fresh m.pk_field ≡ none
    → let m' = (create m row).1 in
      let made = Assoc.insert m.pk_field (num (pos (n + 1))) fresh in
      (get_row (num (pos (n + 1))) m'.rows ≡ get_row (num (pos (n + 1))) m.rows)
      × ((create m' fresh).0 ≡ ok (success (record { data_of = made; pk_field = m.pk_field })))
      × (get_row (num (pos (n + 1))) (create m' fresh).1.rows ≡ some made)
create_overwrites m n row fresh auto given free absent =
    let made : Row = Assoc.insert m.pk_field (num (pos (n + 1))) fresh in
    let (answer, rows) = create_unkeyed (keyed m n row) (n + 1) fresh auto refl absent in
    rw (create_keyed m n row given free) (
      get_row-put_row (num (pos n)) (num (pos (n + 1))) row m.rows ∙ rw (next_key_ne n) refl,
      answer,
      ap (get_row (num (pos (n + 1)))) rows
          ∙ get_row-put_row (num (pos (n + 1))) (num (pos (n + 1))) made (keyed m n row).rows
          ∙ rw (py_eq_refl (num (pos (n + 1)))) refl,
    )
