-- ===== src/Jobs/Queue/Enqueueing.antt =====
-- A key makes an enqueue idempotent.
use text.Mathlib.TextEquality.{eq_iff}
use crm_starter.Prelude.{
  ℕ, ◌≡◌, ◌∙◌, sym, ap, refl, false, Option, none, some, [], ◌∷◌, ◌++◌, str_eq, String, inl, inr,
  arith, Option-cases,
}
use crm_starter.Jobs.{queued, JobRow, Job, as_row}
use crm_starter.Jobs.Queue.{Table, Request, new_job, find, find_queued, create, enqueue}

find_queued-append :
    (key : String) (t : Table) (row : JobRow)
    → find_queued key t ≡ none
    → row.key ≡ some key
    → row.status ≡ queued
    → find_queued key (t ++ (row ∷ [])) ≡ some row
unfolding find_queued
find_queued-append key [] row h k s = ground (arith, k, s, eq_iff key key)
find_queued-append key (x ∷ t) row h k s =
    ground (arith, h, k, s, eq_iff key key, find_queued-append key t row)

enqueue-found :
    (now id : ℕ) (req : Request) (t : Table) (row : JobRow)
    → str_eq req.key "" ≡ false
    → find_queued req.key t ≡ some row
    → enqueue now id req t ≡ (some row, t)
unfolding enqueue
enqueue-found now id req t row named found = simp (named, found, enqueue) refl

enqueue-new :
    (now id : ℕ) (req : Request) (t : Table)
    → str_eq req.key "" ≡ false
    → find_queued req.key t ≡ none
    → enqueue now id req t ≡ create id (new_job now req) t
unfolding enqueue
enqueue-new now id req t named absent = simp (named, absent, enqueue) refl

as_row-key : (id : ℕ) (job : Job) → str_eq job.key "" ≡ false → (as_row id job).key ≡ some job.key
unfolding as_row
as_row-key id job named = simp named refl

as_row-status : (id : ℕ) (job : Job) → (as_row id job).status ≡ job.status
unfolding as_row
as_row-status id job = refl

none-ne_some {ℓ} : {A : Type ℓ} (row : JobRow) → none ≡ some row → A
none-ne_some row e = cc

-- An enqueue after one that left the table `t` with the row `r` under its key.
enqueue_again :
    (now id : ℕ) (req : Request) (t : Table) (r row : JobRow) (first : Option JobRow × Table)
    → str_eq req.key "" ≡ false
    → first ≡ (some r, t)
    → find_queued req.key t ≡ some r
    → first.0 ≡ some row
    → enqueue now id req first.1 ≡ (some row, first.1)
enqueue_again now id req t r row first named e found h =
    ap (λ f. enqueue now id req f.1) e
    ∙ enqueue-found now id req t r named found
    ∙ ap (λ f. (f.0, f.1)) (sym e)
    ∙ ap (λ o. (o, first.1)) h

-- An enqueue under a key that gives a row, followed by any enqueue under the same key, gives that
-- row again and adds nothing, whether the first one found the row, queued or running, or made it.
pub enqueue_twice :
    (now now' id id' : ℕ) (req req' : Request) (t : Table) (row : JobRow)
    → str_eq req.key "" ≡ false
    → req'.key ≡ req.key
    → (enqueue now id req t).0 ≡ some row
    → enqueue now' id' req' (enqueue now id req t).1 ≡ (some row, (enqueue now id req t).1)
unfolding create
enqueue_twice now now' id id' req req' t row named same h =
    let named' : str_eq req'.key "" ≡ false = ap (λ k. str_eq k "") same ∙ named in
    let job : Job = new_job now req in
    let added : Table = t ++ (as_row id job ∷ []) in
    elim (Option-cases (find_queued req.key t)) [
      | inr (old, found) ↦
          enqueue_again now' id' req' t old row (enqueue now id req t) named'
            (enqueue-found now id req t old named found) (ap (λ k. find_queued k t) same ∙ found) h
      | inl absent ↦ elim (Option-cases (find id t)) [
        | inr (old, taken) ↦
            let refused : create id job t ≡ (none, t) = simp (taken, create) refl in
            let e = enqueue-new now id req t named absent ∙ refused in
            none-ne_some row (sym (ap (λ f. f.0) e) ∙ h)
        | inl free ↦
            let made : create id job t ≡ (some (as_row id job), added) = simp (free, create) refl in
            enqueue_again now' id' req' added (as_row id job) row (enqueue now id req t) named'
              (enqueue-new now id req t named absent ∙ made)
              (ap (λ k. find_queued k added) same
                ∙ find_queued-append req.key t (as_row id job) absent (as_row-key id job named)
                    (as_row-status id job))
              h
      ]
    ]
