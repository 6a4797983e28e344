-- ===== src/Auth/Lockout.antt =====
-- LockoutPolicy of app/auth/passwords.py. Instants are microseconds since 1970.
use crm_starter.Prelude.{
  ℕ, ◌+◌, ◌-◌, ◌*◌, Bool, false, not, ◌&&◌, Option, none, some, ltb, if◌then◌else◌,
}
use crm_starter.Prelude.Int.{ℤ, pos, ltb_ℤ}
use crm_starter.Providers.Memory.{next_int}

pub record LockoutPolicy : Type 0 where
  pub max_attempts : ℕ
  pub lock_minutes : ℕ
  pub window_minutes : ℕ

abbrev pub minutes : ℕ → ℕ
minutes n = n * 60_000_000

abbrev pub enabled : LockoutPolicy → Bool
enabled p = ltb 0 p.max_attempts

abbrev pub is_locked : Option ℕ → ℕ → Bool
is_locked none now = false
is_locked (some until) now = ltb now until

-- The failures that still count, once the last one is older than the window.
abbrev pub still_counted : LockoutPolicy → ℤ → Option ℕ → ℕ → ℤ
still_counted p failures none now = failures
still_counted p failures (some last) now =
    if ltb (minutes p.window_minutes) (now - last) then pos 0 else failures

-- The counter and the end of the lock after one more failed attempt.
unfoldable pub next_state : LockoutPolicy → ℤ → Option ℕ → ℕ → ℤ × Option ℕ
next_state p failures last now =
    let count = next_int (still_counted p failures last now) in
    let full = enabled p && not (ltb_ℤ count (pos p.max_attempts)) in
    (count, if full then some (now + minutes p.lock_minutes) else none)
