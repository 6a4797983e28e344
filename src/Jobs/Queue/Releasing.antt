-- ===== src/Jobs/Queue/Releasing.antt =====
-- What becomes of a running job that is given up.
use crm_starter.Prelude.{
  ℕ, ◌-◌, ◌≡◌, ◌∙◌, ap, refl, true, some, ◌<◌, leb, if◌then◌else◌, inl, inr, arith, Bool-cases,
  ◌==◌, ==_iff, ◌≢◌, ◌+◌, none, List, [], ◌∷◌, take, keep,
}
use crm_starter.Core.Results.{ok, Result-cases}
use crm_starter.Jobs.{queued, running, failed, JobRow, Job, status_eq, attempts_left, from_row}
use crm_starter.Jobs.Queue.{
  Table, changed, find, replace, Queue, held, take_job, outcome_of_abandonment, release_one,
  release_rows, release_stale, is_stale,
}
use crm_starter.Jobs.Queue.Table.{find-replace, update_if-found, update_if-cases}
use crm_starter.Jobs.Queue.Attempts.{take-queued}

abandoned-status :
    (q : Queue) (now : ℕ) (job : Job)
    → (outcome_of_abandonment q now job).status
      ≡ (if leb (job.max_attempts - job.attempts) 0 then failed else queued)
unfolding attempts_left outcome_of_abandonment
abandoned-status q now job = elim (Bool-cases (leb (job.max_attempts - job.attempts) 0)) [
  | inl spent ↦ ground (arith, spent)
  | inr left ↦ ground (arith, left)
]

release_one-running :
    (q : Queue) (now : ℕ) (job : Job) (t : Table) (row : JobRow)
    → q.conditional ≡ true
    → find job.id t ≡ some row
    → row.status ≡ running
    → (release_one q now job t).1 ≡ replace job.id (outcome_of_abandonment q now job) t
unfolding release_one
release_one-running q now job t row on there status =
    let held_now : status_eq row.status running ≡ true = ap (λ s. status_eq s running) status in
    let written =
      update_if-found job.id (outcome_of_abandonment q now job) running t row there held_now in
    simp (on, written, release_one) refl

-- Over providers with the conditional write, the release of a row that was read earlier goes by the
-- status alone: if the row is running when it is written, whenever that claim was made, and the job as
-- it was read had attempts left, the next worker to claim it takes it.
pub released_is_taken_twice :
    (q q' : Queue) (now now' : ℕ) (job job' : Job) (t : Table) (row : JobRow)
    → q.conditional ≡ true
    → q'.conditional ≡ true
    → find job.id t ≡ some row
    → row.status ≡ running
    → job.attempts < job.max_attempts
    → job'.id ≡ job.id
    → (take_job q' now' job' (release_one q now job t).1).0 ≡ ok (some (held q' job'))
released_is_taken_twice q q' now now' job job' t row on on' there status left same =
    let c = outcome_of_abandonment q now job in
    let table = release_one-running q now job t row on there status in
    let found : find job'.id (release_one q now job t).1 ≡ some (changed c row) =
      ap (find job'.id) table
      ∙ ap (λ i. find i (replace job.id c t)) same
      ∙ find-replace job.id job.id c t
      ∙ rw there (ground arith) in
    let free : c.status ≡ queued = abandoned-status q now job ∙ ground (arith, left) in
    (take-queued q' now' (release_one q now job t).1 (changed c row) job' on' found free).0

held_apart :
    (i id : ℕ) (t : Table) (other row : JobRow)
    → (i == id) ≡ true
    → find i t ≡ some other
    → find id t ≡ some row
    → row.status ≡ other.status
held_apart i id t other row same found there = let e : i ≡ id = (==_iff i id).0 same in cc

release_one_idle :
    (q : Queue) (now : ℕ) (job : Job) (t : Table) (id : ℕ) (row : JobRow)
    → q.conditional ≡ true
    → find id t ≡ some row
    → row.status ≢ running
    → find id (release_one q now job t).1 ≡ some row
unfolding release_one
release_one_idle q now job t id row on there idle =
    let c = outcome_of_abandonment q now job in
    elim (update_if-cases job.id c running t) [
      | inl (other, found, status, answer, table) ↦ elim (Bool-cases (job.id == id)) [
        | inl same ↦ absurd (idle (held_apart job.id id t other row same found there ∙ status))
        | inr apart ↦
            simp (on, release_one)
              (ap (find id) table ∙ find-replace job.id id c t ∙ rw apart there)
      ]
      | inr (inl (answer, table)) ↦ simp (on, release_one) (ap (find id) table ∙ there)
      | inr (inr (e, answer, table)) ↦ simp (on, release_one) (ap (find id) table ∙ there)
    ]

release_rows_idle :
    (q : Queue) (now : ℕ) (page : List JobRow) (released : ℕ) (t : Table) (id : ℕ) (row : JobRow)
    → q.conditional ≡ true
    → find id t ≡ some row
    → row.status ≢ running
    → find id (release_rows q now page released t).1 ≡ some row
unfolding release_rows
release_rows_idle q now [] released t id row on there idle = there
release_rows_idle q now (read ∷ page) released t id row on there idle =
    let job : Job = from_row read in
    let kept = release_one_idle q now job t id row on there idle in
    elim (Result-cases (release_one q now job t).0) [
      | inr (e, failed_write) ↦ simp (failed_write, release_rows) kept
      | inl (none, lost) ↦
          simp (lost, release_rows)
            (release_rows_idle q now page released (release_one q now job t).1 id row on kept idle)
      | inl (some freed, won) ↦
          simp (won, release_rows)
            (release_rows_idle q now page (released + 1) (release_one q now job t).1 id row on kept
              idle)
    ]

-- Over a provider with the conditional write, a release of stale jobs leaves each row that is not
-- running as it was.
pub release_stale_idle :
    (q : Queue) (now : ℕ) (t : Table) (id : ℕ) (row : JobRow)
    → q.conditional ≡ true
    → find id t ≡ some row
    → row.status ≢ running
    → find id (release_stale q now t).1 ≡ some row
unfolding release_stale
release_stale_idle q now t id row on there idle =
    release_rows_idle q now (take 200 (keep (is_stale q now) t)) 0 t id row on there idle
