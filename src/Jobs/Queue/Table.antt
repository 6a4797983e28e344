-- ===== src/Jobs/Queue/Table.antt =====
-- What an update of the jobs table changes.
use crm_starter.Prelude.{
  ℕ, ◌≡◌, ◌∙◌, ap, refl, true, false, none, some, [], ◌∷◌, ◌==◌, if◌then◌else◌, inl, inr, arith,
  Option-cases, Bool-cases, ◌⊎◌, sym,
}
use mathlib.Core.Option as Opt
use crm_starter.Core.Results.{Error, ok, raise, not_found}
use crm_starter.Jobs.{JobStatus, queued, running, done, failed, status_eq, JobRow}
use crm_starter.Jobs.Queue.{Table, Changes, changed, find, replace, update, update_if}

pub find-replace :
    (i j : ℕ) (c : Changes) (t : Table)
    → find j (replace i c t) ≡ (if i == j then Opt.map (changed c) (find j t) else find j t)
unfolding find replace
find-replace i j c [] = ground arith
find-replace i j c (row ∷ t) = ground (arith, find-replace i j c t)

pub status_eq→eq : (a b : JobStatus) → status_eq a b ≡ true → a ≡ b
status_eq→eq queued queued h = refl
status_eq→eq running running h = refl
status_eq→eq done done h = refl
status_eq→eq failed failed h = refl
status_eq→eq queued running h = cc
status_eq→eq queued done h = cc
status_eq→eq queued failed h = cc
status_eq→eq running queued h = cc
status_eq→eq running done h = cc
status_eq→eq running failed h = cc
status_eq→eq done queued h = cc
status_eq→eq done running h = cc
status_eq→eq done failed h = cc
status_eq→eq failed queued h = cc
status_eq→eq failed running h = cc
status_eq→eq failed done h = cc

replace-missing : (i : ℕ) (c : Changes) (t : Table) → find i t ≡ none → replace i c t ≡ t
unfolding find replace
replace-missing i c [] h = refl
replace-missing i c (row ∷ t) h = elim (Bool-cases (row.id == i)) [
  | inl here ↦ ground (arith, here, h)
  | inr there ↦ ground (arith, there, replace-missing i c t, h)
]

pub update-replace : (i : ℕ) (c : Changes) (t : Table) → (update i c t).1 ≡ replace i c t
unfolding update
update-replace i c t = elim (Option-cases (find i t)) [
  | inl missing ↦ simp (missing, update) (sym (replace-missing i c t missing))
  | inr (row, there) ↦ simp (there, update) refl
]

pub find-update :
    (i j : ℕ) (c : Changes) (t : Table)
    → find j (update i c t).1 ≡ (if i == j then Opt.map (changed c) (find j t) else find j t)
find-update i j c t = ap (find j) (update-replace i c t) ∙ find-replace i j c t

-- An `update_if` that succeeds is an `update` of a row with the expected status; any other leaves
-- the table as it was.
pub update_if-cases :
    (i : ℕ) (c : Changes) (expected : JobStatus) (t : Table)
    → ((row : JobRow) × (find i t ≡ some row)
        × (row.status ≡ expected)
        × ((update_if i c expected t).0 ≡ ok (some (changed c row)))
        × ((update_if i c expected t).1 ≡ replace i c t))
      ⊎ (((update_if i c expected t).0 ≡ ok none) × ((update_if i c expected t).1 ≡ t))
      ⊎ ((e : Error) × ((update_if i c expected t).0 ≡ raise e)
          × ((update_if i c expected t).1 ≡ t))
unfolding update_if
update_if-cases i c expected t = elim (Option-cases (find i t)) [
  | inl missing ↦
      inr (inr (not_found, simp (missing, update_if) refl, simp (missing, update_if) refl))
  | inr (row, there) ↦ elim (Bool-cases (status_eq row.status expected)) [
    | inl same ↦ inl (
      row,
      there,
      status_eq→eq row.status expected same,
      simp (there, same, update_if) refl,
      simp (there, same, update_if) refl,
    )
    | inr other ↦ inr (inl (simp (there, other, update_if) (refl, refl)))
  ]
]

pub find-update_self :
    (i : ℕ) (c : Changes) (t : Table) (row : JobRow)
    → find i t ≡ some row
    → find i (update i c t).1 ≡ some (changed c row)
find-update_self i c t row there = find-update i i c t ∙ rw (there) (ground arith)

pub find-update_other :
    (i j : ℕ) (c : Changes) (t : Table) → (i == j) ≡ false → find j (update i c t).1 ≡ find j t
find-update_other i j c t other = find-update i j c t ∙ rw other refl

pub update_if-found :
    (i : ℕ) (c : Changes) (expected : JobStatus) (t : Table) (row : JobRow)
    → find i t ≡ some row
    → status_eq row.status expected ≡ true
    → update_if i c expected t ≡ (ok (some (changed c row)), replace i c t)
unfolding update_if
update_if-found i c expected t row there same = simp (there, same, update_if) refl
