-- ===== src/Auth/Login/Guesses.antt =====
-- A run of wrong guesses locks the account, and a lock refuses whatever password is given.
use crm_starter.Prelude.{
  ℕ, suc, ◌+◌, ◌-◌, ◌≤◌, ◌<◌, ◌≡◌, refl, ◌∙◌, false, String, Option, none, some, List, [], ◌∷◌,
  if◌then◌else◌, leb, length, All, arith, lt→ltb,
}
use crm_starter.Prelude.Int.{ℤ, pos}
use crm_starter.Prelude.Assoc
use crm_starter.Prelude.Assoc.{lookup-insert}
use crm_starter.Core.Value.{Text, Value, num, datetime, Row, Record, get, str, merge_rows}
use crm_starter.Core.Value.Merging.{get-merge_other, get-merge_new}
use crm_starter.Core.Results.{ok}
use crm_starter.Core.Placement.{strip}
use crm_starter.Auth.Passwords.{is_empty}
use crm_starter.Auth.Lockout.{LockoutPolicy, minutes, next_state}
use crm_starter.Auth.Accounts.{
  Users, Outside, LocalAuth, locked, mismatch, refuse, int_or_zero, instant_of,
}
use crm_starter.Auth.Login.{
  find_user, write, login, locked_until, check_account, record_failure, failure_changes, cleared,
  instant_or_none,
}

-- The columns that count wrong guesses are not this one.
abbrev pub IsOther : String → Type 0
IsOther field = get cleared field ≡ none

pub get-failure_changes :
    (field : String) (state : ℤ × Option ℕ) (now : ℕ)
    → IsOther field
    → get (failure_changes state now) field ≡ none
unfolding Assoc.lookup
get-failure_changes field state now h = ground (arith, h)

-- The store takes writes: an account that was written to is found again, with the changes in its row.
pub record KeepsAccounts {ℓ} {S : Type ℓ} (o : Outside) (u : Users S) (a : LocalAuth) : Type ℓ where
  pub kept :
      (s : S) (name : Text) (user : Record) (changes : Row)
      → find_user o u a s name ≡ ok (some user)
      → get changes a.identity_field ≡ none
      → find_user o u a (write o u a s user changes) name
        ≡ ok (some (record user { data_of = merge_rows user.data_of changes }))

-- The last failure is none, or lies within the window.
abbrev pub Within : LockoutPolicy → Option ℕ → ℕ → Type 0
Within p none now = Unit
Within p (some last) now = now - last ≤ minutes p.window_minutes

-- The row of an account with k wrong guesses counted, the last one at the given instant.
pub record Counted (o : Outside) (k : ℕ) (last until : Option ℕ) (row : Row) : Type 0 where
  pub failures : int_or_zero o (get row "failed_logins") ≡ ok (pos k)
  pub last_failure : instant_of o (get row "last_failed_login") ≡ last
  pub lock : instant_of o (get row "locked_until") ≡ until

-- When the lock that the k-th guess sets ends.
abbrev pub lock_after : LockoutPolicy → ℕ → ℕ → Option ℕ
lock_after p k now = if leb p.max_attempts k then some (now + minutes p.lock_minutes) else none

next_state_counts :
    (p : LockoutPolicy) (k : ℕ) (last : Option ℕ) (now : ℕ)
    → 0 < p.max_attempts
    → Within p last now
    → next_state p (pos k) last now ≡ (pos (suc k), lock_after p (suc k) now)
unfolding next_state
next_state_counts p k none now e w = ground arith
next_state_counts p k (some last) now e w = ground arith

pub merge_rows-Counted :
    (o : Outside) (row : Row) (k now : ℕ) (until : Option ℕ)
    → Counted o (suc k) (some now) until (merge_rows row (failure_changes (pos (suc k), until) now))
unfolding Assoc.lookup
merge_rows-Counted o row k now until =
    let changes = failure_changes (pos (suc k), until) now in
    let found = λ (field : String) (v : Value) (h : get changes field ≡ some v).
      get-merge_new row changes field v ((refl, (refl, tt)), ((refl, tt), (tt, tt))) h in
    record {
      failures = rw (found "failed_logins" (num (pos (suc k))) refl) (ground arith);
      last_failure = rw (found "last_failed_login" (datetime now) refl) refl;
      lock = rw (found "locked_until" (instant_or_none until) refl) (of_instant until);
    }
  where
    of_instant : (until : Option ℕ) → instant_of o (some (instant_or_none until)) ≡ until
    of_instant none = refl
    of_instant (some t) = refl

-- A failure within the window is counted in the row.
pub failure_recorded {ℓ} :
    {S : Type ℓ} (o : Outside) (u : Users S) (a : LocalAuth) (s : S) (user : Record) (k now : ℕ)
    (last : Option ℕ)
    → 0 < a.lockout.max_attempts
    → Counted o k last none user.data_of
    → Within a.lockout last now
    → record_failure o u a s user now ≡ (
      ok tt,
      write o u a s user (failure_changes (pos (suc k), lock_after a.lockout (suc k) now) now),
    )
unfolding record_failure
failure_recorded o u a s user k now last on c within =
    rw (c.failures, record_failure)
      (rw c.last_failure (rw (next_state_counts a.lockout k last now on within) refl))

module _ {ℓ} {S : Type ℓ} (o : Outside) (u : Users S) (a : LocalAuth) (name : Text) where
  -- Sign-ins under one name, at the given instants with the given passwords.
  pub try_all : S → List (ℕ × Text) → S
  try_all s [] = s
  try_all s ((now, password) ∷ guesses) = try_all (login o u a s name password now).1 guesses

  -- Each guess has a password, and it is not the one of the hash.
  abbrev pub IsWrong : Text → ℕ × Text → Type 0
  IsWrong stored guess = (is_empty guess.1 ≡ false) × (o.verify stored guess.1 ≡ false)

  -- Each failure lies within the window of the one before it.
  abbrev pub InTime : Option ℕ → List (ℕ × Text) → Type 0
  InTime last [] = Unit
  InTime last ((now, password) ∷ guesses) = Within a.lockout last now × InTime (some now) guesses

  abbrev pub last_of : Option ℕ → List (ℕ × Text) → Option ℕ
  last_of last [] = last
  last_of last ((now, password) ∷ guesses) = last_of (some now) guesses

  login_locked :
      (s : S) (user : Record) (password : Text) (now until : ℕ)
      → is_empty (strip o.rt name) ≡ false
      → is_empty password ≡ false
      → find_user o u a s (strip o.rt name) ≡ ok (some user)
      → instant_of o (get user.data_of "locked_until") ≡ some until
      → now < until
      → login o u a s name password now ≡ (refuse (locked until), s)
  unfolding login locked_until
  login_locked s user password now until e f found lock before =
      rw e (rw f (rw found (rw lock (rw (lt→ltb now until before) refl))))

  module _ (s : S) (user : Record) (stored : Value) (k now : ℕ) (last : Option ℕ) (password : Text)
      (on : 0 < a.lockout.max_attempts) (wrong : IsWrong (str o.rt stored) (now, password))
      (kept : get user.data_of a.password_field ≡ some stored)
      (c : Counted o k last none user.data_of) (within : Within a.lockout last now) where
    check_wrong : check_account o u a s user password now ≡ (
      refuse mismatch,
      write o u a s user (failure_changes (pos (suc k), lock_after a.lockout (suc k) now) now),
    )
    unfolding check_account
    check_wrong =
        rw (kept, check_account)
          (rw wrong.1
            (rw (lt→ltb 0 _ on) (rw (failure_recorded o u a s user k now last on c within) refl)))

    login_wrong :
        is_empty (strip o.rt name) ≡ false
        → find_user o u a s (strip o.rt name) ≡ ok (some user)
        → login o u a s name password now ≡ (
          refuse mismatch,
          write o u a s user (failure_changes (pos (suc k), lock_after a.lockout (suc k) now) now),
        )
    unfolding login locked_until
    login_wrong e found = rw e (rw wrong.0 (rw found (rw c.lock (rw check_wrong refl))))

  module _ (keeps : KeepsAccounts o u a) (own_identity : IsOther a.identity_field)
      (own_password : IsOther a.password_field) (stored : Value) (on : 0 < a.lockout.max_attempts)
      (named : is_empty (strip o.rt name) ≡ false) where
    -- From an account that is not locked and has k wrong guesses counted within the window, as many
    -- more as make up max_attempts lock it: until lock_minutes after the last guess a sign-in is told
    -- so, whatever its password, and writes nothing. The store takes writes, and the columns of the
    -- account's name and password are not those of the count.
    pub guesses_lock :
        (s : S) (user : Record) (k : ℕ) (last : Option ℕ) (guesses : List (ℕ × Text))
        → find_user o u a s (strip o.rt name) ≡ ok (some user)
        → get user.data_of a.password_field ≡ some stored
        → Counted o k last none user.data_of
        → k < a.lockout.max_attempts
        → k + length guesses ≡ a.lockout.max_attempts
        → All (IsWrong (str o.rt stored)) guesses
        → InTime last guesses
        → (now : ℕ) (end : ℕ) (password : Text) → last_of last guesses ≡ some end
        → is_empty password ≡ false
        → now < end + minutes a.lockout.lock_minutes
        → login o u a (try_all s guesses) name password now
          ≡ (refuse (locked (end + minutes a.lockout.lock_minutes)), try_all s guesses)
    unfolding try_all
    guesses_lock s user k last [] found kept c less total wrong within =
        absurd (omega (arith, less, total))
    guesses_lock s user k last ((t, guess) ∷ []) found kept c less total wrong within =
        λ now end password is_end some_password before.
          let p = a.lockout in
          let full : lock_after p (suc k) t ≡ some (end + minutes p.lock_minutes) =
            ground (arith, is_end, total) in
          let changes = failure_changes (pos (suc k), lock_after p (suc k) t) t in
          let after : Counted o (suc k) (some t) (lock_after p (suc k) t)
              (merge_rows user.data_of changes) =
            merge_rows-Counted o user.data_of k t _ in
          rw
            (
              login_wrong s user stored k t last guess on wrong.0 kept c within.0 named found,
              try_all,
            )
            (login_locked _ (record user { data_of = merge_rows user.data_of changes }) password now
              _ named some_password
              (keeps.kept s (strip o.rt name) user changes found
                (get-failure_changes _ _ t own_identity))
              (after.lock ∙ full) before)
    guesses_lock s user k last ((t, guess) ∷ g ∷ guesses) found kept c less total wrong within =
        let p = a.lockout in
        let free : lock_after p (suc k) t ≡ none = ground (arith, total) in
        let changes = failure_changes (pos (suc k), lock_after p (suc k) t) t in
        let after : Counted o (suc k) (some t) (lock_after p (suc k) t)
            (merge_rows user.data_of changes) =
          merge_rows-Counted o user.data_of k t _ in
        rw
          (login_wrong s user stored k t last guess on wrong.0 kept c within.0 named found, try_all)
          (guesses_lock (write o u a s user changes)
            (record user { data_of = merge_rows user.data_of changes }) (suc k) (some t)
            (g ∷ guesses)
            (keeps.kept s (strip o.rt name) user changes found
              (get-failure_changes _ _ t own_identity))
            (get-merge_other user.data_of changes a.password_field
                (get-failure_changes _ _ t own_password)
              ∙ kept)
            (record {
              failures = after.failures;
              last_failure = after.last_failure;
              lock = after.lock ∙ free;
            })
            (omega (arith, total)) (omega (arith, total)) wrong.1 within.1)
