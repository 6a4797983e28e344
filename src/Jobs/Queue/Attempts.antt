-- ===== src/Jobs/Queue/Attempts.antt =====
-- How often a job is tried that never succeeds, and what a shutdown costs.
use crm_starter.Prelude.{
  ℕ, zero, suc, ◌+◌, ◌≡◌, ◌∙◌, sym, ap, refl, Bool, true, false, none, some, [], ◌∷◌, ◌==◌, ◌<◌,
  leb, if◌then◌else◌, inl, inr, arith, Bool-cases, ◌-◌,
}
use crm_starter.Core.Results.{ok, raise}
use crm_starter.Jobs.{
  JobStatus, queued, failed, JobRow, Job, from_row, attempts_left, status_eq, default_max_attempts,
}
use crm_starter.Jobs.Queue.{
  Table, changed, find, replace, Queue, claim_changes, held, take_job, run, Outcome, returned,
  timed_out, shut_down, cancelled, crashed, retry_after,
}
use crm_starter.Jobs.Queue.Table.{find-replace, update_if-found}
use crm_starter.Jobs.Queue.Running.{run-Written, again, settled, final}

-- The handler asks for another attempt, or is cut off.
abbrev pub asks_again : Outcome → Bool
asks_again timed_out = true
asks_again shut_down = true
asks_again (retry_after reason delay) = true
asks_again _ = false

-- Claim one job and run it, as a round of the worker does.
unfoldable pub attempt : Queue → ℕ → Outcome → ℕ → Table → Table
attempt q now outcome id t = elim (find id t) [
  | none ↦ t
  | some row ↦ elim (take_job q now (from_row row) t).0 [
    | raise e ↦ (take_job q now (from_row row) t).1
    | ok none ↦ (take_job q now (from_row row) t).1
    | ok (some job) ↦ (run q now job outcome (take_job q now (from_row row) t).1).1
  ]
]

-- `n` attempts, with the times and the outcomes of each.
unfoldable pub attempts_of : Queue → (ℕ → ℕ) → (ℕ → Outcome) → ℕ → ℕ → Table → Table
attempts_of q nows outcomes id zero t = t
attempts_of q nows outcomes id (suc n) t =
    attempt q (nows n) (outcomes n) id (attempts_of q nows outcomes id n t)

-- A row of the kind, that has been tried `n` times of `limit`.
abbrev pub Tried : Queue → ℕ → Table → ℕ → ℕ → JobStatus → Type 0
Tried q id t limit n status =
    (row : JobRow) × (find id t ≡ some row)
    × (q.handled row.kind ≡ true)
    × ((from_row row).max_attempts ≡ limit)
    × (row.attempts ≡ n)
    × (row.status ≡ status)

find-id : (id : ℕ) (t : Table) (row : JobRow) → find id t ≡ some row → row.id ≡ id
unfolding find
find-id id [] row h = cc
find-id id (x ∷ t) row h = elim (Bool-cases (x.id == id)) [
  | inl here ↦ ground (arith, h, here)
  | inr other ↦ ground (arith, h, other, find-id id t row)
]

settled-again :
    (job : Job) (outcome : Outcome) → asks_again outcome ≡ true → settled job outcome ≡ again job
settled-again job timed_out h = refl
settled-again job shut_down h = refl
settled-again job (retry_after reason delay) h = refl
settled-again job returned h = cc
settled-again job (cancelled detail) h = cc
settled-again job (crashed detail) h = cc

final-again :
    (q : Queue) (job : Job) (outcome : Outcome)
    → q.handled job.kind ≡ true
    → asks_again outcome ≡ true
    → final q job outcome ≡ again job
final-again q job outcome handled again_ = rw handled (settled-again job outcome again_)

pub take-queued :
    (q : Queue) (now : ℕ) (t : Table) (row : JobRow) (job : Job)
    → q.conditional ≡ true
    → find job.id t ≡ some row
    → row.status ≡ queued
    → ((take_job q now job t).0 ≡ ok (some (held q job)))
      × ((take_job q now job t).1 ≡ replace job.id (claim_changes q now job) t)
unfolding take_job
take-queued q now t row job on there status =
    let free : status_eq row.status queued ≡ true = ap (λ s. status_eq s queued) status in
    let written = update_if-found job.id (claim_changes q now job) queued t row there free in
    simp (on, written, take_job) (refl, refl)

-- Where a row goes that has been tried `n` times of `limit`.
abbrev pub next_status : ℕ → ℕ → JobStatus
next_status limit n = if leb (limit - n) 0 then failed else queued

attempt-Tried :
    (q : Queue) (now : ℕ) (outcome : Outcome) (id : ℕ) (t : Table) (limit n : ℕ)
    → q.conditional ≡ true
    → q.records id ≡ true
    → asks_again outcome ≡ true
    → Tried q id t limit n queued
    → Tried q id (attempt q now outcome id t) limit (n + 1) (next_status limit (n + 1))
unfolding attempt from_row attempts_left
attempt-Tried q now outcome id t limit n on takes again_ (row, there, handled, max, tried, status) =
    let same : row.id ≡ id = find-id id t row there in
    let here : find row.id t ≡ some row = ap (λ i. find i t) same ∙ there in
    let (answer, table) = take-queued q now t row (from_row row) on here status in
    let job : Job = held q (from_row row) in
    let c = claim_changes q now (from_row row) in
    let found : find row.id (replace row.id c t) ≡ some (changed c row) =
      find-replace row.id row.id c t ∙ rw here (ground arith) in
    let (row', found', status', attempts', max', kind') =
      run-Written q now job outcome (replace row.id c t) (changed c row) (ap q.records same ∙ takes)
        found in
    let moved : attempt q now outcome id t ≡ (run q now job outcome (replace row.id c t)).1 =
      simp (there, answer, table, attempt) refl in
    (
      row',
      ap (find id) moved
          ∙ ap (λ i. find i (run q now job outcome (replace row.id c t)).1) (sym same)
          ∙ found',
      ap q.handled kind' ∙ handled,
      ap (λ m. if m == 0 then default_max_attempts else m) max' ∙ max,
      attempts' ∙ ap (λ k. k + 1) tried,
      status'
          ∙ final-again q job outcome handled again_
          ∙ ap (λ m. next_status m (row.attempts + 1)) max
          ∙ ap (λ k. next_status limit (k + 1)) tried,
    )

recount :
    (q : Queue) (id : ℕ) (t : Table) {limit m n : ℕ} {s s' : JobStatus}
    → m ≡ n
    → s ≡ s'
    → Tried q id t limit m s
    → Tried q id t limit n s'
recount q id t e f (row, there, handled, max, tried, status) =
    (row, there, handled, max, tried ∙ e, status ∙ f)

more_left : (limit n : ℕ) → n < limit → next_status limit n ≡ queued
more_left limit n h = ground (arith, h)

spent : (limit : ℕ) → next_status limit limit ≡ failed
spent limit = ground arith

-- Before its attempts are used up, a job whose handler does no more than ask for another attempt is
-- queued again each time, with one more attempt counted.
pub Tried-queued :
    (q : Queue) (nows : ℕ → ℕ) (outcomes : ℕ → Outcome) (id : ℕ) (t : Table) (limit a n : ℕ)
    → q.conditional ≡ true
    → q.records id ≡ true
    → ((k : ℕ) → asks_again (outcomes k) ≡ true)
    → Tried q id t limit a queued
    → a + n < limit
    → Tried q id (attempts_of q nows outcomes id n t) limit (a + n) queued
unfolding attempts_of
Tried-queued q nows outcomes id t limit a zero on takes again_ h l =
    recount q id _ (omega arith) refl h
Tried-queued q nows outcomes id t limit a (suc n) on takes again_ h l =
    let before = Tried-queued q nows outcomes id t limit a n on takes again_ h (omega (arith, l)) in
    let after =
      attempt-Tried q (nows n) (outcomes n) id (attempts_of q nows outcomes id n t) limit (a + n) on
        takes (again_ n) before in
    recount q id _ (omega arith) (more_left limit (a + n + 1) (omega (arith, l))) after

-- Over a provider with the conditional write that records how the job's runs end, a queued job that
-- has been tried `a` times of `limit`, `a` below `limit`, whose kind has a handler, and whose handler
-- does no more than ask for another attempt, is failed after `limit - a` further attempts, with
-- `limit` attempts counted.
pub attempts_run_out :
    (q : Queue) (nows : ℕ → ℕ) (outcomes : ℕ → Outcome) (id : ℕ) (t : Table) (limit a n : ℕ)
    → q.conditional ≡ true
    → q.records id ≡ true
    → ((k : ℕ) → asks_again (outcomes k) ≡ true)
    → Tried q id t limit a queued
    → a + suc n ≡ limit
    → Tried q id (attempts_of q nows outcomes id (suc n) t) limit limit failed
unfolding attempts_of
attempts_run_out q nows outcomes id t limit a n on takes again_ h e =
    let before = Tried-queued q nows outcomes id t limit a n on takes again_ h (omega (arith, e)) in
    let after =
      attempt-Tried q (nows n) (outcomes n) id (attempts_of q nows outcomes id n t) limit (a + n) on
        takes (again_ n) before in
    recount q id _ (omega (arith, e)) (ap (next_status limit) (omega (arith, e)) ∙ spent limit)
      after
