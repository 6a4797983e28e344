-- ===== src/Jobs/Queue/Rounds.antt =====
-- What a round of the worker leaves.
use crm_starter.Prelude.{
  ℕ, ◌≡◌, ◌≢◌, ◌∙◌, ◌⊎◌, ap, sym, refl, Bool, true, false, ◌||◌, String, Option, none, some, List,
  [], ◌∷◌, ◌==◌, ◌≤◌, inl, inr, arith, Bool-cases, length, All, All-map, All-both, any, leb,
  if◌then◌else◌,
}
use crm_starter.Core.Results.{Error, ok, raise, interrupted}
use crm_starter.Jobs.{JobStatus, queued, running, done, failed, JobRow, Job, attempts_left}
use crm_starter.Jobs.Queue.{
  Table, find, Queue, claim, finish, reschedule, ended, run, or_first, gathered, run_all, run_once,
  Outcome, returned, timed_out, shut_down, cancelled, crashed, retry_after,
}
use crm_starter.Jobs.Queue.Running.{run-Written, run-other, run_settles}
use crm_starter.Jobs.Queue.Claiming.{claim-Wins}

-- The row of a job is there, and it is not running.
abbrev pub IsSettled : Table → ℕ → Type 0
IsSettled t id = (row : JobRow) × (find id t ≡ some row) × (row.status ≢ running)

-- The row of a job is there, and it is still running.
abbrev pub IsRunning : Table → ℕ → Type 0
IsRunning t id = (row : JobRow) × (find id t ≡ some row) × (row.status ≡ running)

-- How a round leaves a job: not running, or still running if the provider does not record its end.
abbrev pub Left : Queue → Table → Job → Type 0
Left q t job =
    ((q.records job.id ≡ true) × IsSettled t job.id)
    ⊎ ((q.records job.id ≡ false) × IsRunning t job.id)

abbrev Stored : Table → ℕ → Type 0
Stored t id = (row : JobRow) × (find id t ≡ some row)

find-id : (i j : ℕ) → (i == j) ≡ true → i ≡ j
find-id i j h = ground (arith, h)

-- A run whose end the provider does not record leaves the table as it is.
finish-off :
    (q : Queue) (now : ℕ) (job : Job) (status : JobStatus) (detail : String) (t : Table)
    → q.records job.id ≡ false
    → finish q now job status detail t ≡ t
unfolding finish
finish-off q now job status detail t off = rw off refl

reschedule-off :
    (q : Queue) (now : ℕ) (job : Job) (reason : String) (delay : Option ℕ) (t : Table)
    → q.records job.id ≡ false
    → reschedule q now job reason delay t ≡ t
unfolding reschedule
reschedule-off q now job reason delay t off = elim (Bool-cases (leb (attempts_left job) 0)) [
  | inl spent ↦ rw (spent, reschedule) (finish-off q now job failed reason t off)
  | inr left ↦ rw (left, reschedule) (rw off refl)
]

ended-off :
    (q : Queue) (now : ℕ) (job : Job) (outcome : Outcome) (t : Table)
    → q.records job.id ≡ false
    → (ended q now job outcome t).1 ≡ t
ended-off q now job returned t off = finish-off q now job done "" t off
ended-off q now job (cancelled detail) t off = finish-off q now job done detail t off
ended-off q now job (crashed detail) t off = finish-off q now job failed detail t off
ended-off q now job timed_out t off = reschedule-off q now job q.timeout_text none t off
ended-off q now job shut_down t off = reschedule-off q now job _ (some 0) t off
ended-off q now job (retry_after reason delay) t off = reschedule-off q now job _ delay t off

run-off :
    (q : Queue) (now : ℕ) (job : Job) (outcome : Outcome) (t : Table)
    → q.records job.id ≡ false
    → (run q now job outcome t).1 ≡ t
unfolding run
run-off q now job outcome t off = elim (Bool-cases (q.handled job.kind)) [
  | inl handled ↦ rw (handled, run) (ended-off q now job outcome t off)
  | inr unhandled ↦ rw (unhandled, run) (finish-off q now job queued _ t off)
]

run-unrecorded :
    (q : Queue) (now : ℕ) (job : Job) (outcome : Outcome) (t : Table) (id : ℕ)
    → q.records id ≡ false
    → find id (run q now job outcome t).1 ≡ find id t
run-unrecorded q now job outcome t id off = elim (Bool-cases (job.id == id)) [
  | inl same ↦
      ap (find id) (run-off q now job outcome t (ap q.records (find-id job.id id same) ∙ off))
  | inr other ↦ run-other q now job outcome t id other
]

run-Stored :
    (q : Queue) (now : ℕ) (job : Job) (outcome : Outcome) (t : Table) (id : ℕ)
    → Stored t job.id
    → Stored t id
    → Stored (run q now job outcome t).1 id
run-Stored q now job outcome t id (own, here) (row, there) = elim (Bool-cases (q.records id)) [
  | inr off ↦ (row, run-unrecorded q now job outcome t id off ∙ there)
  | inl on ↦ elim (Bool-cases (job.id == id)) [
    | inl same ↦
        let e : job.id ≡ id = find-id job.id id same in
        let (row', found, status, attempts, limit, kind) =
          run-Written q now job outcome t own (ap q.records e ∙ on) here in
        (row', rw (sym e) found)
    | inr other ↦ (row, run-other q now job outcome t id other ∙ there)
  ]
]

run-IsSettled :
    (q : Queue) (now : ℕ) (job : Job) (outcome : Outcome) (t : Table) (id : ℕ)
    → Stored t job.id
    → IsSettled t id
    → IsSettled (run q now job outcome t).1 id
run-IsSettled q now job outcome t id (own, here) (row, there, idle) =
    elim (Bool-cases (q.records id)) [
      | inr off ↦ (row, run-unrecorded q now job outcome t id off ∙ there, idle)
      | inl on ↦ elim (Bool-cases (job.id == id)) [
        | inl same ↦
            let e : job.id ≡ id = find-id job.id id same in
            let (row', found, idle', a, b) =
              run_settles q now job outcome t own (ap q.records e ∙ on) here in
            (row', rw (sym e) found, idle')
        | inr other ↦ (row, run-other q now job outcome t id other ∙ there, idle)
      ]
    ]

run_all-IsSettled :
    (q : Queue) (now : ℕ) (outcomes : ℕ → Outcome) (jobs : List Job) (t : Table)
    → All (λ j. Stored t j.id) jobs
    → ((id : ℕ) → IsSettled t id → IsSettled (run_all q now outcomes jobs t).1 id)
      × All (λ j. q.records j.id ≡ true → IsSettled (run_all q now outcomes jobs t).1 j.id) jobs
unfolding run_all
run_all-IsSettled q now outcomes [] t h = (λ id s. s, tt)
run_all-IsSettled q now outcomes (job ∷ jobs) t (here, h) =
    let outcome : Outcome = outcomes job.id in
    let rest =
      run_all-IsSettled q now outcomes jobs (run q now job outcome t).1
        (All-map _ _ jobs (λ j s. run-Stored q now job outcome t j.id here s) h) in
    (
      λ id s. rest.0 id (run-IsSettled q now job outcome t id here s),
      (
        λ on.
            let (row, found, idle, a, b) = run_settles q now job outcome t here.0 on here.1 in
            rest.0 job.id (row, found, idle),
        rest.1,
      ),
    )

run_all-unrecorded :
    (q : Queue) (now : ℕ) (outcomes : ℕ → Outcome) (jobs : List Job) (t : Table) (id : ℕ)
    → q.records id ≡ false
    → find id (run_all q now outcomes jobs t).1 ≡ find id t
unfolding run_all
run_all-unrecorded q now outcomes [] t id off = refl
run_all-unrecorded q now outcomes (job ∷ jobs) t id off =
    run_all-unrecorded q now outcomes jobs (run q now job (outcomes job.id) t).1 id off
    ∙ run-unrecorded q now job (outcomes job.id) t id off

abbrev pub is_shut_down : Outcome → Bool
is_shut_down shut_down = true
is_shut_down _ = false

-- What a run answers that its caller is to know: nothing, unless the worker is shut down.
run-raises :
    (q : Queue) (now : ℕ) (job : Job) (outcome : Outcome) (t : Table) (later : Option Error)
    → q.handled job.kind ≡ true
    → or_first (run q now job outcome t).0 later
      ≡ (if is_shut_down outcome then some interrupted else later)
unfolding run
run-raises q now job outcome t later handled = rw (handled, run) (cases outcome)
  where
    cases :
        (o : Outcome)
        → or_first (ended q now job o t).0 later
          ≡ (if is_shut_down o then some interrupted else later)
    cases returned = refl
    cases (cancelled detail) = refl
    cases (crashed detail) = refl
    cases timed_out = refl
    cases shut_down = refl
    cases (retry_after reason delay) = refl

either :
    (a b : Bool)
    → (if a then some interrupted else if b then some interrupted else none)
      ≡ (if a || b then some interrupted else none)
either true b = refl
either false b = refl

run_all-raises :
    (q : Queue) (now : ℕ) (outcomes : ℕ → Outcome) (jobs : List Job) (t : Table)
    → All (λ j. q.handled j.kind ≡ true) jobs
    → (run_all q now outcomes jobs t).0
      ≡ (if any (λ j. is_shut_down (outcomes j.id)) jobs then some interrupted else none)
unfolding run_all
run_all-raises q now outcomes [] t h = refl
run_all-raises q now outcomes (job ∷ jobs) t (here, h) =
    ap (or_first (run q now job (outcomes job.id) t).0)
      (run_all-raises q now outcomes jobs (run q now job (outcomes job.id) t).1 h)
    ∙ run-raises q now job (outcomes job.id) t _ here
    ∙ either (is_shut_down (outcomes job.id)) (any (λ j. is_shut_down (outcomes j.id)) jobs)

gathered-if :
    (b : Bool) (n : ℕ)
    → gathered n (if b then some interrupted else none) ≡ (if b then raise interrupted else ok n)
gathered-if true n = refl
gathered-if false n = refl

run_all-Left :
    (q : Queue) (now : ℕ) (outcomes : ℕ → Outcome) (jobs : List Job) (t : Table) (job : Job)
    → IsRunning t job.id
    → (q.records job.id ≡ true → IsSettled (run_all q now outcomes jobs t).1 job.id)
    → Left q (run_all q now outcomes jobs t).1 job
run_all-Left q now outcomes jobs t job (row, there, busy) settled =
    elim (Bool-cases (q.records job.id)) [
      | inl on ↦ inl (on, settled on)
      | inr off ↦
          inr (off, (row, run_all-unrecorded q now outcomes jobs t job.id off ∙ there, busy))
    ]

-- Over a provider with the conditional write, a round of the worker that claims some jobs, at most
-- `limit`, runs all of them. It answers their number, or raises the interruption if the worker is shut
-- down while one of them runs. Either way, and however their handlers end, no row of these jobs is left
-- running but those whose end the provider fails to record, and those are left running.
pub run_once_settles :
    (q : Queue) (now limit : ℕ) (outcomes : ℕ → Outcome) (t : Table) (jobs : List Job)
    → q.conditional ≡ true
    → (claim q now limit t).0 ≡ ok jobs
    → ((run_once q now outcomes limit t).0 ≡ (
        if any (λ j. is_shut_down (outcomes j.id)) jobs
        then raise interrupted
        else ok (length jobs)))
      × (length jobs ≤ limit)
      × All (Left q (run_once q now outcomes limit t).1) jobs
unfolding run_once
run_once_settles q now limit outcomes t jobs on h =
    let (count, won) = claim-Wins q now limit t jobs on h in
    let table : Table = (claim q now limit t).1 in
    let stored =
      All-map _ (λ j. Stored table j.id) jobs (λ j (row, handled, was, is). (is.0, is.1)) won in
    let settled = (run_all-IsSettled q now outcomes jobs table stored).1 in
    let busy = All-map _ (λ j. IsRunning table j.id) jobs (λ j (row, handled, was, is). is) won in
    let raises =
      run_all-raises q now outcomes jobs table
        (All-map _ _ jobs (λ j (row, handled, was, is). handled) won) in
    simp (h, run_once)
      (
        ap (gathered (length jobs)) raises
            ∙ gathered-if (any (λ j. is_shut_down (outcomes j.id)) jobs) (length jobs),
        count,
        All-both _ _ _ jobs (λ j r s. run_all-Left q now outcomes jobs table j r s) busy settled,
      )
