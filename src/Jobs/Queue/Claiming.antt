-- ===== src/Jobs/Queue/Claiming.antt =====
-- Which jobs a claim wins. The provider has the conditional write, and the rows that a claim goes
-- through may be out of date.
use crm_starter.Prelude.{
  ℕ, ◌+◌, ◌≡◌, ◌≢◌, ◌∙◌, sym, refl, true, false, Option, none, some, List, [], ◌∷◌, ◌++◌, ◌==◌, ◌≤◌,
  leb, inl, inr, arith, Bool-cases, length, length-append, All, All-take, All-keep, All-map, ◌*◌,
  ◌⊎◌, max,
}
use mathlib.Core.Option as Opt
use mathlib.Core.List.{append-nil, append_assoc}
use crm_starter.Prelude.Sort.{sort-All}
use crm_starter.Core.Results.{Result, Error, ok, raise, ok-inj}
use crm_starter.Jobs.{JobStatus, queued, running, JobRow, Job, from_row}
use crm_starter.Jobs.Queue.{
  Table, Changes, changed, find, replace, Queue, claim_changes, held, take_job, claim_rows,
  claimable, claim, is_due, runs_before,
}
use crm_starter.Jobs.Queue.Table.{find-replace, update_if-cases}

-- The table has a row with this key and status.
abbrev pub Has : JobStatus → Table → ℕ → Type 0
Has status t id = (row : JobRow) × (find id t ≡ some row) × (row.status ≡ status)

-- From `t` to `t'` no running row leaves that status, and no row gets queued.
record Grows (t t' : Table) : Type 0 where
  stay : (id : ℕ) → Has running t id → Has running t' id
  back : (id : ℕ) → Has queued t' id → Has queued t id

Grows-refl : (t : Table) → Grows t t
Grows-refl t = record { stay = λ id h. h; back = λ id h. h }

Grows-trans : {t t' t'' : Table} → Grows t t' → Grows t' t'' → Grows t t''
Grows-trans g h = record {
  stay = λ id a. h.stay id (g.stay id a);
  back = λ id a. g.back id (h.back id a);
}

changed-status :
    (c : Changes) (o : Option JobRow) (row : JobRow)
    → Opt.map (changed c) o ≡ some row
    → row.status ≡ c.status
changed-status c none row h = cc
changed-status c (some old) row h = cc

queued-ne-running : queued ≢ running
queued-ne-running e = cc

take-Grows : (id : ℕ) (c : Changes) (t : Table) → c.status ≡ running → Grows t (replace id c t)
take-Grows i c t e = record {
  stay = λ id (row, there, status). elim (Bool-cases (i == id)) [
    | inl here ↦ (changed c row, find-replace i id c t ∙ rw (here, there) refl, e)
    | inr other ↦ (row, find-replace i id c t ∙ rw other there, status)
  ];
  back = λ id (row, there, status). elim (Bool-cases (i == id)) [
    | inl here ↦ absurd (
        queued-ne-running (
          sym status
          ∙ changed-status c (find id t) row (sym (find-replace i id c t ∙ rw here refl) ∙ there)
          ∙ e))
    | inr other ↦ (row, sym (find-replace i id c t ∙ rw other refl) ∙ there, status)
  ];
}

replace-Has :
    (id : ℕ) (c : Changes) (t : Table) (status : JobStatus)
    → Has status t id
    → Has c.status (replace id c t) id
replace-Has id c t status (row, there, e) =
    (changed c row, find-replace id id c t ∙ rw there (ground arith), refl)

-- What `_take` does over a conditional provider.
take_job-cases :
    (q : Queue) (now : ℕ) (job : Job) (t : Table)
    → q.conditional ≡ true
    → (Has queued t job.id
        × ((take_job q now job t).0 ≡ ok (some (held q job)))
        × ((take_job q now job t).1 ≡ replace job.id (claim_changes q now job) t))
      ⊎ (((take_job q now job t).0 ≡ ok none) × ((take_job q now job t).1 ≡ t))
      ⊎ ((e : Error) × ((take_job q now job t).0 ≡ raise e) × ((take_job q now job t).1 ≡ t))
unfolding take_job
take_job-cases q now job t on = elim (update_if-cases job.id (claim_changes q now job) queued t) [
  | inl (row, there, status, answer, table) ↦
      inl ((row, there, status), simp (on, answer, take_job) refl, simp (on, take_job) table)
  | inr (inl (answer, table)) ↦
      inr (inl (simp (on, answer, take_job) refl, simp (on, take_job) table))
  | inr (inr (e, answer, table)) ↦
      inr (inr (e, simp (on, answer, take_job) refl, simp (on, take_job) table))
]

length-snoc : (xs : List Job) (job : Job) → length (xs ++ (job ∷ [])) ≡ length xs + 1
length-snoc xs job = length-append xs (job ∷ [])

Counted : ℕ → List Job → List Job → Type 0
Counted limit won extra = length won ≤ limit → length (won ++ extra) ≤ limit

module _ (q : Queue) (now limit : ℕ) (P : JobRow → Type 0) where
  -- A job that a claim wins: it is read from a row with `P`, its kind has a handler, its row was
  -- queued in `t`, and is running in `t'`.
  abbrev pub Wins : Table → Table → Job → Type 0
  Wins t t' job =
      ((row : JobRow) × (job ≡ held q (from_row row)) × P row)
      × (q.handled job.kind ≡ true)
      × Has queued t job.id
      × Has running t' job.id

  Wins-Grows :
      {t t1 : Table} (t' : Table) (jobs : List Job)
      → Grows t t1
      → All (Wins t1 t') jobs
      → All (Wins t t') jobs
  Wins-Grows t' [] g h = tt
  Wins-Grows t' (job ∷ jobs) g ((row, handled, was, is), h) =
      ((row, handled, g.back job.id was, is), Wins-Grows t' jobs g h)

  -- What a claim comes to, whether it returns or raises.
  Claims : Table → List Job → Result (List Job) × Table → Type 0
  Claims t won result =
      Grows t result.1
      × ((jobs : List Job)
          → result.0 ≡ ok jobs
          → (extra : List Job) × (jobs ≡ won ++ extra)
            × All (Wins t result.1) extra
            × Counted limit won extra)

  no_more : (t : Table) (won : List Job) → Claims t won (ok won, t)
  unfolding Claims Counted
  no_more t won = (
    Grows-refl t,
    λ jobs h. ([], sym (ok-inj h) ∙ sym (append-nil won), tt, λ l. rw (append-nil won) l),
  )

  raised : (t : Table) (won : List Job) (e : Error) → Claims t won (raise e, t)
  unfolding Claims
  raised t won e = (Grows-refl t, λ jobs h. cc)

  one_more :
      (t t1 : Table) (won : List Job) (job : Job) (result : Result (List Job) × Table)
      → leb limit (length won) ≡ false
      → Grows t t1
      → Wins t t1 job
      → Claims t1 (won ++ (job ∷ [])) result
      → Claims t won result
  unfolding Claims Counted
  one_more t t1 won job result short g (row, handled, was, is) c = (
    Grows-trans g c.0,
    λ jobs h.
        let (extra, e, all, count) = c.1 jobs h in
        (
          job ∷ extra,
          e ∙ append_assoc won (job ∷ []) extra,
          ((row, handled, was, c.0.stay job.id is), Wins-Grows result.1 extra g all),
          λ l.
              rw (sym (append_assoc won (job ∷ []) extra))
                (count (rw (length-snoc won job) (ground (arith, short)))),
        ),
  )

  claim_rows-Claims :
      (page : List JobRow) (won : List Job) (t : Table)
      → q.conditional ≡ true
      → All P page
      → Claims t won (claim_rows q now limit page won t)
  unfolding claim_rows
  claim_rows-Claims [] won t on h = no_more t won
  claim_rows-Claims (row ∷ page) won t on h = elim (Bool-cases (leb limit (length won))) [
    | inl full ↦ simp (full, claim_rows) (no_more t won)
    | inr short ↦ elim (Bool-cases (q.handled (from_row row).kind)) [
      | inr unhandled ↦ simp (short, unhandled, claim_rows) (claim_rows-Claims page won t on h.1)
      | inl handled ↦ elim (take_job-cases q now (from_row row) t on) [
        | inl (was, answer, table) ↦
            simp (short, handled, answer, table, claim_rows)
              (one_more t (replace (from_row row).id (claim_changes q now (from_row row)) t) won
                (held q (from_row row)) _ short
                (take-Grows (from_row row).id (claim_changes q now (from_row row)) t refl)
                ((row, refl, h.0), handled, was, replace-Has (from_row row).id _ t queued was)
                (claim_rows-Claims page _ _ on h.1))
        | inr (inl (answer, table)) ↦
            simp (short, handled, answer, table, claim_rows) (claim_rows-Claims page won t on h.1)
        | inr (inr (e, answer, table)) ↦
            simp (short, handled, answer, table, claim_rows) (raised t won e)
      ]
    ]
  ]

-- A claim that returns wins at most `limit` jobs; each is read from a row that was queued and due
-- when the claim read it, its kind has a handler, its row was queued still when the claim wrote it,
-- and the row is running now.
pub claim-Wins :
    (q : Queue) (now limit : ℕ) (t : Table) (jobs : List Job)
    → q.conditional ≡ true
    → (claim q now limit t).0 ≡ ok jobs
    → (length jobs ≤ limit)
      × All (Wins q now limit (λ row. is_due now row ≡ true) t (claim q now limit t).1) jobs
unfolding claim claimable Claims Counted
claim-Wins q now limit t jobs on h =
    let due : All (λ row. is_due now row ≡ true) (claimable now limit t) =
      All-take _ (max (limit * 2) (limit + 4)) _
        (sort-All runs_before _ _ (All-keep (is_due now) t)) in
    let (extra, e, all, count) =
      (claim_rows-Claims q now limit _ (claimable now limit t) [] t on due).1 jobs h in
    rw e (count (ground arith), all)

Has-apart : (t : Table) (i j : ℕ) → Has running t i → Has queued t j → i ≢ j
Has-apart t i j (row, there, status) (row', there', status') e = cc

Wins-apart :
    (q1 q2 : Queue) (now1 limit1 now2 limit2 : ℕ) (P : JobRow → Type 0) (t t1 t2 : Table) (j : Job)
    (ks : List Job)
    → Wins q1 now1 limit1 P t t1 j
    → All (Wins q2 now2 limit2 P t1 t2) ks
    → All (λ k. j.id ≢ k.id) ks
Wins-apart q1 q2 now1 limit1 now2 limit2 P t t1 t2 j ks (row, handled, was, is) h =
    All-map _ _ ks (λ k (row', handled', was', is'). Has-apart t1 j.id k.id is was') h

any_row : (page : List JobRow) → All (λ row. ℕ) page
any_row [] = tt
any_row (row ∷ page) = (0, any_row page)

-- Two workers that claim one after the other, each going through whatever rows it read before, be
-- they the same rows and out of date, never win the same job.
pub claims_disjoint :
    (q1 q2 : Queue) (now1 now2 limit1 limit2 : ℕ) (page1 page2 : List JobRow) (t : Table)
    (jobs1 jobs2 : List Job)
    → q1.conditional ≡ true
    → q2.conditional ≡ true
    → (claim_rows q1 now1 limit1 page1 [] t).0 ≡ ok jobs1
    → (claim_rows q2 now2 limit2 page2 [] (claim_rows q1 now1 limit1 page1 [] t).1).0 ≡ ok jobs2
    → All (λ j. All (λ k. j.id ≢ k.id) jobs2) jobs1
unfolding Claims Counted
claims_disjoint q1 q2 now1 now2 limit1 limit2 page1 page2 t jobs1 jobs2 on1 on2 h1 h2 =
    let (extra1, e1, all1, count1) =
      (claim_rows-Claims q1 now1 limit1 (λ row. ℕ) page1 [] t on1 (any_row page1)).1 jobs1 h1 in
    let (extra2, e2, all2, count2) =
      (claim_rows-Claims q2 now2 limit2 (λ row. ℕ) page2 [] _ on2 (any_row page2)).1 jobs2 h2 in
    rw (e1, e2)
      (All-map _ _ extra1
        (λ j w. Wins-apart q1 q2 now1 limit1 now2 limit2 (λ row. ℕ) t _ _ j extra2 w all2) all1)
