-- ===== src/Jobs/Queue.antt =====
-- app/jobs/queue.py: the queue over a provider that is bound, whose table is a list of rows. What
-- `utcnow` gives is an argument, one for each operation, in whole seconds; log lines and the sets that
-- keep them short are left out. A handler is known by its outcome.
pub mod Table
pub mod Running
pub mod Claiming
pub mod Rounds
pub mod Attempts
pub mod Releasing
pub mod Enqueueing
use crm_starter.Prelude.{
  ℕ, ◌+◌, ◌*◌, max, String, Option, none, some, Bool, true, false, not, ◌&&◌, ◌||◌, ◌==◌, ltb, leb,
  str_eq, if◌then◌else◌, List, [], ◌∷◌, ◌++◌, length, take, keep,
}
use crm_starter.Prelude.Int.{ℤ, ltb_ℤ}
use crm_starter.Prelude.Sort.{sort}
use crm_starter.Core.Results.{Error, Result, ok, raise, not_found, conflict, interrupted}
use crm_starter.Jobs.{
  JobStatus, queued, running, done, failed, status_eq, JobRow, Job, from_row, as_row, or_none,
  attempts_left, next_run,
}

abbrev pub Table : Type 0
Table = List JobRow

-- A dict of columns to write: `none` is a column that the dict does not name.
pub record Changes : Type 0 where
  pub status : JobStatus
  pub claimed_by : Option (Option String)
  pub claimed_at : Option (Option ℕ)
  pub run_at : Option ℕ
  pub attempts : Option ℕ
  pub last_error : Option (Option String)
  pub finished_at : Option (Option ℕ)

abbrev pub or_old {ℓ} : {A : Type ℓ} → Option A → A → A
or_old none old = old
or_old (some new) old = new

abbrev pub changed : Changes → JobRow → JobRow
changed c row = record row {
  status = c.status;
  claimed_by = or_old c.claimed_by row.claimed_by;
  claimed_at = or_old c.claimed_at row.claimed_at;
  run_at = or_old c.run_at row.run_at;
  attempts = or_old c.attempts row.attempts;
  last_error = or_old c.last_error row.last_error;
  finished_at = or_old c.finished_at row.finished_at;
}

unfoldable pub find : ℕ → Table → Option JobRow
find id [] = none
find id (row ∷ t) = if row.id == id then some row else find id t

unfoldable pub replace : ℕ → Changes → Table → Table
replace id c [] = []
replace id c (row ∷ t) =
    let rest = replace id c t in if row.id == id then changed c row ∷ t else row ∷ rest

-- The provider's `update` and `update_if`, the latter with an expected status only.
unfoldable pub update : ℕ → Changes → Table → Result JobRow × Table
update id c t = elim (find id t) [
  | none ↦ (raise not_found, t)
  | some row ↦ (ok (changed c row), replace id c t)
]

unfoldable pub update_if : ℕ → Changes → JobStatus → Table → Result (Option JobRow) × Table
update_if id c expected t = elim (find id t) [
  | none ↦ (raise not_found, t)
  | some row ↦
      if status_eq row.status expected
      then (ok (some (changed c row)), replace id c t)
      else (ok none, t)
]

-- A worker's queue object, and what it knows of its surroundings.
pub record Queue : Type 0 where
  pub name : String
  pub lease : ℕ
  -- `handler_for(kind) is not None`
  pub handled : String → Bool
  -- the provider supports `update_if`
  pub conditional : Bool
  -- the provider takes the update that records how the run of a job ended; if not, it raises
  pub records : ℕ → Bool
  -- "timed out after {job_timeout}s"
  pub timeout_text : String
  -- "worker {claimed_by or unknown} stopped without finishing"
  pub abandoned_text : String → String

-- The row of a queued or running job with the key.
unfoldable pub find_queued : String → Table → Option JobRow
find_queued key [] = none
find_queued key (row ∷ t) =
    let rest = find_queued key t in
    elim row.key [
      | none ↦ rest
      | some k ↦
          if str_eq k key && (status_eq row.status queued || status_eq row.status running)
          then some row
          else rest
    ]

-- The arguments of `enqueue`; a delay of 0 is none.
pub record Request : Type 0 where
  pub kind : String
  pub payload : String
  pub delay : ℕ
  pub max_attempts : ℕ
  pub key : String
  pub priority : ℤ

abbrev pub new_job : ℕ → Request → Job
new_job now request = record {
  id = 0;
  kind = request.kind;
  payload = request.payload;
  status = queued;
  run_at = now + request.delay;
  attempts = 0;
  max_attempts = request.max_attempts;
  claimed_by = "";
  last_error = "";
  key = request.key;
  priority = request.priority;
}

-- `provider.create` under the key `id` that the provider gives; a key that is taken raises, and
-- the failure is logged.
unfoldable pub create : ℕ → Job → Table → Option JobRow × Table
create id job t = elim (find id t) [
  | some old ↦ (none, t)
  | none ↦ (some (as_row id job), t ++ (as_row id job ∷ []))
]

unfoldable pub enqueue : ℕ → ℕ → Request → Table → Option JobRow × Table
enqueue now id request t =
    if str_eq request.key ""
    then create id (new_job now request) t
    else elim (find_queued request.key t) [
      | some existing ↦ (some existing, t)
      | none ↦ create id (new_job now request) t
    ]

-- The rows that `claim` reads: queued and due, the highest priority first and then the earliest.
unfoldable pub is_due : ℕ → JobRow → Bool
is_due now row = status_eq row.status queued && leb row.run_at now

abbrev pub runs_before : JobRow → JobRow → Bool
runs_before a b =
    ltb_ℤ b.priority a.priority || (not (ltb_ℤ a.priority b.priority) && ltb a.run_at b.run_at)

unfoldable pub claimable : ℕ → ℕ → Table → List JobRow
claimable now limit t = take (max (limit * 2) (limit + 4)) (sort runs_before (keep (is_due now) t))

abbrev pub claim_changes : Queue → ℕ → Job → Changes
claim_changes q now job = record {
  status = running;
  claimed_by = some (some q.name);
  claimed_at = some (some now);
  run_at = none;
  attempts = some (job.attempts + 1);
  last_error = none;
  finished_at = none;
}

-- `_take`: the job as its holder has it, or none if somebody else took it.
abbrev pub held : Queue → Job → Job
held q job = record job { attempts = job.attempts + 1; claimed_by = q.name; status = running }

unfoldable pub take_job : Queue → ℕ → Job → Table → Result (Option Job) × Table
take_job q now job t =
    if q.conditional
    then (
      elim (update_if job.id (claim_changes q now job) queued t).0 [
        | raise e ↦ raise e
        | ok none ↦ ok none
        | ok (some won) ↦ ok (some (held q job))
      ],
      (update_if job.id (claim_changes q now job) queued t).1,
    )
    else (
      elim (update job.id (claim_changes q now job) t).0 [
        | raise e ↦ raise e
        | ok won ↦ ok (some (record job { attempts = job.attempts + 1 }))
      ],
      (update job.id (claim_changes q now job) t).1,
    )

-- The loop of `claim` over the rows that it read, which other workers may have changed since.
unfoldable pub claim_rows :
    Queue → ℕ → ℕ → List JobRow → List Job → Table → Result (List Job) × Table
claim_rows q now limit [] won t = (ok won, t)
claim_rows q now limit (row ∷ page) won t = elim (leb limit (length won)) [
  | true ↦ (ok won, t)
  | false ↦ elim (q.handled (from_row row).kind) [
    | false ↦ claim_rows q now limit page won t
    | true ↦ elim (take_job q now (from_row row) t).0 [
      | raise e ↦ (raise e, (take_job q now (from_row row) t).1)
      | ok none ↦ claim_rows q now limit page won (take_job q now (from_row row) t).1
      | ok (some job) ↦
          claim_rows q now limit page (won ++ (job ∷ [])) (take_job q now (from_row row) t).1
    ]
  ]
]

unfoldable pub claim : Queue → ℕ → ℕ → Table → Result (List Job) × Table
claim q now limit t = claim_rows q now limit (claimable now limit t) [] t

-- `_outcome_of_abandonment`
unfoldable pub outcome_of_abandonment : Queue → ℕ → Job → Changes
outcome_of_abandonment q now job =
    if leb (attempts_left job) 0
    then record {
      status = failed;
      claimed_by = none;
      claimed_at = none;
      run_at = none;
      attempts = none;
      last_error = some (some (q.abandoned_text job.claimed_by));
      finished_at = some (some now);
    }
    else record {
      status = queued;
      claimed_by = some none;
      claimed_at = some none;
      run_at = some (next_run now job none);
      attempts = none;
      last_error = some (some (q.abandoned_text job.claimed_by));
      finished_at = none;
    }

-- The rows that `release_stale` reads: running, and claimed before `now - lease` or at no time.
unfoldable pub is_stale : Queue → ℕ → JobRow → Bool
is_stale q now row =
    status_eq row.status running
    && elim row.claimed_at [ none ↦ true | some at ↦ ltb (at + q.lease) now ]

unfoldable pub release_one : Queue → ℕ → Job → Table → Result (Option JobRow) × Table
release_one q now job t =
    if q.conditional then update_if job.id (outcome_of_abandonment q now job) running t else (
      elim (update job.id (outcome_of_abandonment q now job) t).0 [
        | raise e ↦ raise e
        | ok written ↦ ok (some written)
      ],
      (update job.id (outcome_of_abandonment q now job) t).1,
    )

unfoldable pub release_rows : Queue → ℕ → List JobRow → ℕ → Table → Result ℕ × Table
release_rows q now [] released t = (ok released, t)
release_rows q now (row ∷ page) released t = elim (release_one q now (from_row row) t).0 [
  | raise e ↦ (raise e, (release_one q now (from_row row) t).1)
  | ok none ↦ release_rows q now page released (release_one q now (from_row row) t).1
  | ok (some freed) ↦ release_rows q now page (released + 1) (release_one q now (from_row row) t).1
]

unfoldable pub release_stale : Queue → ℕ → Table → Result ℕ × Table
release_stale q now t = release_rows q now (take 200 (keep (is_stale q now) t)) 0 t

-- How a handler ends: it returns, raises Cancelled or Retry, runs out of time, is cut off by the
-- worker's shutdown, or raises anything else. A text is the one that the queue records.
pub data Outcome : Type 0 where
  returned timed_out shut_down : Outcome
  cancelled crashed : String → Outcome
  retry_after : String → Option ℕ → Outcome

-- `_write`: a failure of the provider, or a row that is not there, is logged, and goes no further; the
-- row is left as it is.
abbrev pub write : Queue → ℕ → Changes → Table → Table
write q id c t = if q.records id then (update id c t).1 else t

-- `_finish`
unfoldable pub finish : Queue → ℕ → Job → JobStatus → String → Table → Table
finish q now job status detail t =
    write q job.id
      (record {
        status = status;
        claimed_by = if status_eq status queued then some none else none;
        claimed_at = if status_eq status queued then some none else none;
        run_at = none;
        attempts = none;
        last_error = some (or_none detail);
        finished_at =
            if status_eq status done || status_eq status failed then some (some now) else none;
      })
      t

-- `_reschedule`
unfoldable pub reschedule : Queue → ℕ → Job → String → Option ℕ → Table → Table
reschedule q now job reason delay t =
    if leb (attempts_left job) 0
    then finish q now job failed reason t
    else write q job.id
        (record {
          status = queued;
          claimed_by = some none;
          claimed_at = some none;
          run_at = some (next_run now job delay);
          attempts = none;
          last_error = some (some reason);
          finished_at = none;
        })
        t

abbrev pub reason_or_default : String → String
reason_or_default reason = if str_eq reason "" then "retry requested" else reason

-- The branches of `run` after a handler has ended: whether the job succeeded; the shutdown is
-- raised on.
abbrev pub ended : Queue → ℕ → Job → Outcome → Table → Result Bool × Table
ended q now job (cancelled detail) t = (ok true, finish q now job done detail t)
ended q now job (retry_after reason delay) t =
    (ok false, reschedule q now job (reason_or_default reason) delay t)
ended q now job timed_out t = (ok false, reschedule q now job q.timeout_text none t)
ended q now job shut_down t =
    (raise interrupted, reschedule q now job "worker shut down mid-job" (some 0) t)
ended q now job (crashed detail) t = (ok false, finish q now job failed detail t)
ended q now job returned t = (ok true, finish q now job done "" t)

unfoldable pub run : Queue → ℕ → Job → Outcome → Table → Result Bool × Table
run q now job outcome t =
    if not (q.handled job.kind)
    then (ok false, finish q now job queued "no handler registered" t)
    else ended q now job outcome t

-- `retry`: put a job back with its attempts reset.
unfoldable pub retry : ℕ → ℕ → Table → Result JobRow × Table
retry now id t =
    update id
      (record {
        status = queued;
        claimed_by = some none;
        claimed_at = some none;
        run_at = some now;
        attempts = some 0;
        last_error = none;
        finished_at = some none;
      })
      t

-- The first that was raised.
abbrev pub or_first : Result Bool → Option Error → Option Error
or_first (raise e) later = some e
or_first (ok b) later = later

-- The runs that `run_once` gathers, and what the gather raises, if any run does; the other runs go on.
-- Each writes one row, when its handler ends; they are taken in the order of the claim.
unfoldable pub run_all : Queue → ℕ → (ℕ → Outcome) → List Job → Table → Option Error × Table
run_all q now outcomes [] t = (none, t)
run_all q now outcomes (job ∷ jobs) t =
    let (answer, after) = run q now job (outcomes job.id) t in
    let (later, end) = run_all q now outcomes jobs after in (or_first answer later, end)

abbrev pub gathered : ℕ → Option Error → Result ℕ
gathered n none = ok n
gathered n (some e) = raise e

-- `run_once`: how many jobs were run, or what the gather raised.
unfoldable pub run_once : Queue → ℕ → (ℕ → Outcome) → ℕ → Table → Result ℕ × Table
run_once q now outcomes limit t = elim (claim q now limit t).0 [
  | raise e ↦ (raise e, (claim q now limit t).1)
  | ok jobs ↦
      let (raised, after) = run_all q now outcomes jobs (claim q now limit t).1 in
      (gathered (length jobs) raised, after)
]
