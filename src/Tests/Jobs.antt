-- ===== src/Tests/Jobs.antt =====
-- The job queue at concrete inputs.
use crm_starter.Prelude.{ℕ, ◌≡◌, ◌≢◌, refl, true, none, some, [], ◌∷◌, ◌≤◌, arith, length, All}
use crm_starter.Prelude.Int.{pos}
use crm_starter.Prelude.Sort.{sort}
use crm_starter.Core.Results.{ok, raise, interrupted}
use crm_starter.Jobs.{
  JobRow, Job, queued, running, failed, from_row, backoff, next_run, attempts_left,
}
use crm_starter.Jobs.Queue.{
  Table, Queue, find, replace, update, update_if, Request, find_queued, enqueue, is_due, claimable,
  claim_rows, claim, take_job, release_stale, release_rows, is_stale, held, release_one, timed_out,
  shut_down, run, run_once, reschedule,
}
use crm_starter.Jobs.Queue.Claiming.{claims_disjoint}
use crm_starter.Jobs.Queue.Rounds.{Left, run_once_settles}
use crm_starter.Jobs.Queue.Attempts.{Tried, attempts_of, attempts_run_out}
use crm_starter.Jobs.Queue.Releasing.{released_is_taken_twice}
use crm_starter.Jobs.Queue.Enqueueing.{enqueue_twice}

abbrev worker : Queue
worker = record {
  name = "host:1";
  lease = 900;
  handled = λ kind. true;
  conditional = true;
  records = λ id. true;
  timeout_text = "timed out after 300s";
  abandoned_text = λ by. "worker stopped without finishing";
}

abbrev other_worker : Queue
other_worker = record worker { name = "host:2" }

abbrev job_row : ℕ → JobRow
job_row id = record {
  id = id;
  kind = "export";
  payload = "{}";
  status = queued;
  run_at = 100;
  attempts = 0;
  max_attempts = 2;
  claimed_by = none;
  claimed_at = none;
  last_error = none;
  finished_at = none;
  key = some "nightly";
  priority = pos 0;
}

abbrev table : Table
table = job_row 1 ∷ job_row 2 ∷ []

abbrev claimed : Table
claimed = (claim worker 200 1 table).1

abbrev held_job : Job
held_job = record {
  id = 1;
  kind = "export";
  payload = "{}";
  status = running;
  run_at = 100;
  attempts = 1;
  max_attempts = 2;
  claimed_by = "host:1";
  last_error = "";
  key = "nightly";
  priority = pos 0;
}

there : find 1 table ≡ some (job_row 1)
unfolding find
there = refl

claims_one : (claim worker 200 1 table).0 ≡ ok (held_job ∷ [])
unfolding claim claim_rows claimable sort is_due take_job update_if find from_row
claims_one = refl

-- The worker is shut down while it runs the job.
run_once_settles_example :
    ((run_once worker 200 (λ id. shut_down) 1 table).0 ≡ raise interrupted)
    × (length (held_job ∷ []) ≤ 1)
    × All (Left worker (run_once worker 200 (λ id. shut_down) 1 table).1) (held_job ∷ [])
run_once_settles_example =
    run_once_settles worker 200 1 (λ id. shut_down) table (held_job ∷ []) refl claims_one

Tried-0 : Tried worker 1 table 2 0 queued
unfolding from_row
Tried-0 = (job_row 1, there, refl, refl, refl, refl)

-- The row of the first job, and another time, after its handler ran out of time.
abbrev requeued : JobRow
requeued = record (job_row 1) {
  claimed_by = none;
  claimed_at = none;
  run_at = 230;
  last_error = some "timed out after 300s";
}

requeues : find 1 (run worker 200 held_job timed_out table).1 ≡ some requeued
unfolding run reschedule update find replace next_run backoff attempts_left
requeues = refl

abbrev second_job : Job
second_job = record held_job { id = 2; claimed_by = "host:2" }

claims_next :
    (claim_rows other_worker 200 1 table [] (claim_rows worker 200 1 table [] table).1).0
    ≡ ok (second_job ∷ [])
unfolding claim_rows take_job update_if find replace from_row
claims_next = refl

claims_first : (claim_rows worker 200 1 table [] table).0 ≡ ok (held_job ∷ [])
unfolding claim_rows take_job update_if find replace from_row
claims_first = refl

claims_disjoint_example : All (λ j. All (λ k. j.id ≢ k.id) (second_job ∷ [])) (held_job ∷ [])
claims_disjoint_example =
    claims_disjoint worker other_worker 200 200 1 1 table table table (held_job ∷ [])
      (second_job ∷ []) refl refl claims_first claims_next

attempts_run_out_example :
    Tried worker 1 (attempts_of worker (λ k. 200) (λ k. shut_down) 1 2 table) 2 2 failed
attempts_run_out_example =
    attempts_run_out worker (λ k. 200) (λ k. shut_down) 1 table 2 0 1 refl refl (λ k. refl) Tried-0
      (omega arith)

-- The first job, claimed a second ago; and the job as a release read it, before an earlier claim ended.
abbrev fresh_row : JobRow
fresh_row = record (job_row 1) {
  status = running;
  attempts = 1;
  claimed_by = some "host:1";
  claimed_at = some 1000;
}

abbrev read_before : Job
read_before = record held_job { attempts = 0 }

there_fresh : find 1 (fresh_row ∷ []) ≡ some fresh_row
unfolding find
there_fresh = refl

released_is_taken_twice_example :
    (take_job other_worker 1001 read_before
      (release_one worker 1000 read_before (fresh_row ∷ [])).1).0
    ≡ ok (some (held other_worker read_before))
released_is_taken_twice_example =
    released_is_taken_twice worker other_worker 1000 1001 read_before read_before (fresh_row ∷ [])
      fresh_row refl refl there_fresh refl (omega arith) refl

abbrev nightly : Request
nightly = record {
  kind = "export";
  payload = "{}";
  delay = 0;
  max_attempts = 5;
  key = "nightly";
  priority = pos 0;
}

enqueues : (enqueue 300 3 nightly table).0 ≡ some (job_row 1)
unfolding enqueue find_queued
enqueues = refl

enqueue_twice_example :
    enqueue 301 4 nightly (enqueue 300 3 nightly table).1
    ≡ (some (job_row 1), (enqueue 300 3 nightly table).1)
enqueue_twice_example =
    enqueue_twice 300 301 3 4 nightly nightly table (job_row 1) refl refl enqueues

abbrev mixed : Table
mixed = fresh_row ∷ job_row 2 ∷ []

second_there : find 2 mixed ≡ some (job_row 2)
unfolding find
second_there = refl

queued_ne_running : queued ≢ running
queued_ne_running e = cc

-- The release at this time requeues the first job, which has attempts left.
releases_one : (release_stale worker 5000 mixed).0 ≡ ok 1
unfolding release_stale release_rows release_one is_stale update_if find from_row
releases_one = refl
