-- ===== src/Jobs/Queue/Running.antt =====
-- What running a job writes down.
use crm_starter.Prelude.{
  ℕ, ◌≡◌, ◌≢◌, ◌↔◌, ◌∙◌, refl, true, false, String, Option, none, some, ◌==◌, ◌<◌, ◌-◌, leb,
  if◌then◌else◌, inl, inr, arith, Bool-cases, not, sym,
}
use crm_starter.Jobs.{JobStatus, queued, running, done, failed, JobRow, Job, attempts_left}
use crm_starter.Core.Results.{ok}
use crm_starter.Jobs.Queue.{
  Table, Changes, changed, find, write, finish, reschedule, ended, run, Queue, Outcome, returned,
  timed_out, shut_down, cancelled, crashed, retry_after,
}
use crm_starter.Jobs.Queue.Table.{find-update_self, find-update_other}

-- How a write leaves a job's row.
abbrev pub Written : Job → JobRow → JobStatus → Table → Type 0
Written job row status t =
    (row' : JobRow) × (find job.id t ≡ some row')
    × (row'.status ≡ status)
    × (row'.attempts ≡ row.attempts)
    × (row'.max_attempts ≡ row.max_attempts)
    × (row'.kind ≡ row.kind)

write-Written :
    (q : Queue) (job : Job) (row : JobRow) (c : Changes) (t : Table)
    → c.attempts ≡ none
    → q.records job.id ≡ true
    → find job.id t ≡ some row
    → Written job row c.status (write q job.id c t)
write-Written q job row c t same takes there =
    rw takes (changed c row, find-update_self job.id c t row there, refl, rw same refl, refl, refl)

finish-Written :
    (q : Queue) (now : ℕ) (job : Job) (status : JobStatus) (detail : String) (t : Table)
    (row : JobRow)
    → q.records job.id ≡ true
    → find job.id t ≡ some row
    → Written job row status (finish q now job status detail t)
unfolding finish
finish-Written q now job status detail t row takes there =
    write-Written q job row _ t refl takes there

-- Where a job goes that is to be tried again.
abbrev pub again : Job → JobStatus
again job = if leb (attempts_left job) 0 then failed else queued

reschedule-Written :
    (q : Queue) (now : ℕ) (job : Job) (reason : String) (delay : Option ℕ) (t : Table)
    (row : JobRow)
    → q.records job.id ≡ true
    → find job.id t ≡ some row
    → Written job row (again job) (reschedule q now job reason delay t)
unfolding reschedule
reschedule-Written q now job reason delay t row takes there =
    elim (Bool-cases (leb (attempts_left job) 0)) [
      | inl spent ↦
          rw (spent, reschedule) (finish-Written q now job failed reason t row takes there)
      | inr left ↦ rw (left, reschedule) (write-Written q job row _ t refl takes there)
    ]

-- Where an outcome leaves a job that has a handler.
abbrev pub settled : Job → Outcome → JobStatus
settled job returned = done
settled job (cancelled detail) = done
settled job (crashed detail) = failed
settled job timed_out = again job
settled job shut_down = again job
settled job (retry_after reason delay) = again job

ended-Written :
    (q : Queue) (now : ℕ) (job : Job) (outcome : Outcome) (t : Table) (row : JobRow)
    → q.records job.id ≡ true
    → find job.id t ≡ some row
    → Written job row (settled job outcome) (ended q now job outcome t).1
ended-Written q now job returned t row takes there =
    finish-Written q now job done "" t row takes there
ended-Written q now job (cancelled detail) t row takes there =
    finish-Written q now job done detail t row takes there
ended-Written q now job (crashed detail) t row takes there =
    finish-Written q now job failed detail t row takes there
ended-Written q now job timed_out t row takes there =
    reschedule-Written q now job q.timeout_text none t row takes there
ended-Written q now job shut_down t row takes there =
    reschedule-Written q now job _ (some 0) t row takes there
ended-Written q now job (retry_after reason delay) t row takes there =
    reschedule-Written q now job _ delay t row takes there

write-other :
    (q : Queue) (id : ℕ) (c : Changes) (t : Table) (j : ℕ)
    → (id == j) ≡ false
    → find j (write q id c t) ≡ find j t
write-other q id c t j other = elim (Bool-cases (q.records id)) [
  | inl on ↦ rw on (find-update_other id j c t other)
  | inr off ↦ rw off refl
]

finish-other :
    (q : Queue) (now : ℕ) (job : Job) (status : JobStatus) (detail : String) (t : Table) (j : ℕ)
    → (job.id == j) ≡ false
    → find j (finish q now job status detail t) ≡ find j t
unfolding finish
finish-other q now job status detail t j other = write-other q job.id _ t j other

reschedule-other :
    (q : Queue) (now : ℕ) (job : Job) (reason : String) (delay : Option ℕ) (t : Table) (j : ℕ)
    → (job.id == j) ≡ false
    → find j (reschedule q now job reason delay t) ≡ find j t
unfolding reschedule
reschedule-other q now job reason delay t j other = elim (Bool-cases (leb (attempts_left job) 0)) [
  | inl spent ↦ rw (spent, reschedule) (finish-other q now job failed reason t j other)
  | inr left ↦ rw (left, reschedule) (write-other q job.id _ t j other)
]

ended-other :
    (q : Queue) (now : ℕ) (job : Job) (outcome : Outcome) (t : Table) (j : ℕ)
    → (job.id == j) ≡ false
    → find j (ended q now job outcome t).1 ≡ find j t
ended-other q now job returned t j other = finish-other q now job done "" t j other
ended-other q now job (cancelled detail) t j other = finish-other q now job done detail t j other
ended-other q now job (crashed detail) t j other = finish-other q now job failed detail t j other
ended-other q now job timed_out t j other = reschedule-other q now job q.timeout_text none t j other
ended-other q now job shut_down t j other = reschedule-other q now job _ (some 0) t j other
ended-other q now job (retry_after reason delay) t j other =
    reschedule-other q now job _ delay t j other

again-cases :
    (job : Job)
    → (again job ≢ running)
      × (again job ≢ done)
      × (again job ≡ queued → job.attempts < job.max_attempts)
unfolding attempts_left
again-cases job = elim (Bool-cases (leb (job.max_attempts - job.attempts) 0)) [
  | inl spent ↦ rw (spent, attempts_left) (λ e. cc, λ e. cc, λ e. cc)
  | inr left ↦ rw (left, attempts_left) (λ e. cc, λ e. cc, λ e. ground (arith, left))
]

settled-cases :
    (job : Job) (outcome : Outcome)
    → (settled job outcome ≢ running)
      × (settled job outcome ≡ queued → job.attempts < job.max_attempts)
settled-cases job returned = (λ e. cc, λ e. cc)
settled-cases job (cancelled detail) = (λ e. cc, λ e. cc)
settled-cases job (crashed detail) = (λ e. cc, λ e. cc)
settled-cases job timed_out = let (a, b, c) = again-cases job in (a, c)
settled-cases job shut_down = let (a, b, c) = again-cases job in (a, c)
settled-cases job (retry_after reason delay) = let (a, b, c) = again-cases job in (a, c)

ended-done :
    (q : Queue) (now : ℕ) (job : Job) (outcome : Outcome) (t : Table)
    → ((ended q now job outcome t).0 ≡ ok true) ↔ (settled job outcome ≡ done)
ended-done q now job returned t = (λ e. refl, λ e. refl)
ended-done q now job (cancelled detail) t = (λ e. refl, λ e. refl)
ended-done q now job (crashed detail) t = (λ e. cc, λ e. cc)
ended-done q now job timed_out t = (λ e. cc, λ e. absurd ((again-cases job).1 e))
ended-done q now job shut_down t = (λ e. cc, λ e. absurd ((again-cases job).1 e))
ended-done q now job (retry_after reason delay) t = (λ e. cc, λ e. absurd ((again-cases job).1 e))

-- The status that `run` leaves.
abbrev pub final : Queue → Job → Outcome → JobStatus
final q job outcome = if not (q.handled job.kind) then queued else settled job outcome

pub run-Written :
    (q : Queue) (now : ℕ) (job : Job) (outcome : Outcome) (t : Table) (row : JobRow)
    → q.records job.id ≡ true
    → find job.id t ≡ some row
    → Written job row (final q job outcome) (run q now job outcome t).1
unfolding run
run-Written q now job outcome t row takes there = elim (Bool-cases (q.handled job.kind)) [
  | inl handled ↦ rw (handled, run) (ended-Written q now job outcome t row takes there)
  | inr unhandled ↦ rw (unhandled, run) (finish-Written q now job queued _ t row takes there)
]

-- Running a job changes no other job's row.
pub run-other :
    (q : Queue) (now : ℕ) (job : Job) (outcome : Outcome) (t : Table) (j : ℕ)
    → (job.id == j) ≡ false
    → find j (run q now job outcome t).1 ≡ find j t
unfolding run
run-other q now job outcome t j other = elim (Bool-cases (q.handled job.kind)) [
  | inl handled ↦ rw (handled, run) (ended-other q now job outcome t j other)
  | inr unhandled ↦ rw (unhandled, run) (finish-other q now job queued _ t j other)
]

final-cases :
    (q : Queue) (job : Job) (outcome : Outcome)
    → (final q job outcome ≢ running)
      × (q.handled job.kind ≡ true → final q job outcome ≡ queued → job.attempts < job.max_attempts)
final-cases q job outcome = elim (Bool-cases (q.handled job.kind)) [
  | inl handled ↦ rw handled ((settled-cases job outcome).0, λ h. (settled-cases job outcome).1)
  | inr unhandled ↦ rw unhandled (λ e. cc, λ h. cc)
]

run-done :
    (q : Queue) (now : ℕ) (job : Job) (outcome : Outcome) (t : Table)
    → ((run q now job outcome t).0 ≡ ok true) ↔ (final q job outcome ≡ done)
unfolding run
run-done q now job outcome t = elim (Bool-cases (q.handled job.kind)) [
  | inl handled ↦ rw (handled, run) (ended-done q now job outcome t)
  | inr unhandled ↦ rw (unhandled, run) (λ e. cc, λ e. cc)
]

-- However its handler ends, a job that is run, and whose end the provider records, is left with a row that is not running any more; the
-- attempts that the row counts are not changed; and `run` answers True exactly if the row is done.
pub run_settles :
    (q : Queue) (now : ℕ) (job : Job) (outcome : Outcome) (t : Table) (row : JobRow)
    → q.records job.id ≡ true
    → find job.id t ≡ some row
    → (row' : JobRow) × (find job.id (run q now job outcome t).1 ≡ some row')
      × (row'.status ≢ running)
      × (row'.attempts ≡ row.attempts)
      × (((run q now job outcome t).0 ≡ ok true) ↔ (row'.status ≡ done))
run_settles q now job outcome t row takes there =
    let (row', found, status, attempts, limit, kind) =
      run-Written q now job outcome t row takes there in
    let (true_done, done_true) = run-done q now job outcome t in
    (
      row',
      found,
      λ e. (final-cases q job outcome).0 (sym status ∙ e),
      attempts,
      (λ a. status ∙ true_done a, λ e. done_true (sym status ∙ e)),
    )

-- A job whose kind has a handler is queued again by `run` only if it had attempts left.
pub run_requeues_with_attempts_left :
    (q : Queue) (now : ℕ) (job : Job) (outcome : Outcome) (t : Table) (row row' : JobRow)
    → q.handled job.kind ≡ true
    → q.records job.id ≡ true
    → find job.id t ≡ some row
    → find job.id (run q now job outcome t).1 ≡ some row'
    → row'.status ≡ queued
    → job.attempts < job.max_attempts
run_requeues_with_attempts_left q now job outcome t row row' handled takes there found status =
    let (row'', found'', status'', attempts'', limit'', kind'') =
      run-Written q now job outcome t row takes there in
    let same : row''.status ≡ row'.status = cc in
    (final-cases q job outcome).1 handled (sym status'' ∙ same ∙ status)
