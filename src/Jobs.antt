-- ===== src/Jobs.antt =====
-- app/jobs/base.py: a job, its row, and the backoff between attempts. Times are whole seconds.
pub mod Backoff
pub mod Queue
use crm_starter.Prelude.{
  ℕ, ◌+◌, ◌-◌, ◌*◌, ◌^◌, min, String, Option, none, some, Bool, true, false, ◌==◌, if◌then◌else◌,
  str_eq,
}
use crm_starter.Prelude.Int.{ℤ}

pub data JobStatus : Type 0 where
  queued running done failed : JobStatus

abbrev pub status_eq : JobStatus → JobStatus → Bool
status_eq queued queued = true
status_eq running running = true
status_eq done done = true
status_eq failed failed = true
status_eq _ _ = false

abbrev pub default_max_attempts : ℕ
default_max_attempts = 5

abbrev pub retry_base_delay : ℕ
retry_base_delay = 30

abbrev pub retry_max_delay : ℕ
retry_max_delay = 3600

-- How long to wait before the attempt after `attempts`.
unfoldable pub backoff : ℕ → ℕ
backoff attempts = min (retry_base_delay * 2 ^ (attempts - 1)) retry_max_delay

-- A row of the jobs table. The payload is kept as its text.
pub record JobRow : Type 0 where
  pub id : ℕ
  pub kind : String
  pub payload : String
  pub status : JobStatus
  pub run_at : ℕ
  pub attempts : ℕ
  pub max_attempts : ℕ
  pub claimed_by : Option String
  pub claimed_at : Option ℕ
  pub last_error : Option String
  pub finished_at : Option ℕ
  pub key : Option String
  pub priority : ℤ

-- What a worker holds of a job: a copy of the row, as it was read.
pub record Job : Type 0 where
  pub id : ℕ
  pub kind : String
  pub payload : String
  pub status : JobStatus
  pub run_at : ℕ
  pub attempts : ℕ
  pub max_attempts : ℕ
  pub claimed_by : String
  pub last_error : String
  pub key : String
  pub priority : ℤ

-- `value or ""`.
abbrev pub or_empty : Option String → String
or_empty none = ""
or_empty (some s) = s

-- `value or None`.
abbrev pub or_none : String → Option String
or_none s = if str_eq s "" then none else some s

-- A stored limit of 0 reads as the default.
unfoldable pub from_row : JobRow → Job
from_row row = record {
  id = row.id;
  kind = row.kind;
  payload = row.payload;
  status = row.status;
  run_at = row.run_at;
  attempts = row.attempts;
  max_attempts = if row.max_attempts == 0 then default_max_attempts else row.max_attempts;
  claimed_by = or_empty row.claimed_by;
  last_error = or_empty row.last_error;
  key = or_empty row.key;
  priority = row.priority;
}

-- The row of a new job, under the key that the provider gives it.
unfoldable pub as_row : ℕ → Job → JobRow
as_row id job = record {
  id = id;
  kind = job.kind;
  payload = job.payload;
  status = job.status;
  run_at = job.run_at;
  attempts = job.attempts;
  max_attempts = job.max_attempts;
  claimed_by = or_none job.claimed_by;
  claimed_at = none;
  last_error = none;
  finished_at = none;
  key = or_none job.key;
  priority = job.priority;
}

unfoldable pub attempts_left : Job → ℕ
attempts_left job = job.max_attempts - job.attempts

unfoldable pub next_run : ℕ → Job → Option ℕ → ℕ
next_run now job delay = elim delay [ none ↦ now + backoff job.attempts | some d ↦ now + d ]
