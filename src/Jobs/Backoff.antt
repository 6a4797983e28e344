-- ===== src/Jobs/Backoff.antt =====
-- How the delay between attempts grows.
use crm_starter.Prelude.{ℕ, zero, suc, ◌+◌, ◌*◌, ◌^◌, ◌≤◌, ◌<◌, min, ◌≡◌, arith}
use native.Mathlib.Nat.{pow-suc, one-le-pow}
use crm_starter.Jobs.{backoff}

power : (n : ℕ) → (1 ≤ 2 ^ n) × (2 ^ suc n ≡ 2 ^ n * 2)
power n = (one-le-pow n 2 (omega arith), pow-suc 2 n)

-- After the first attempt the delay is at least 30 seconds, and from one attempt to the next it
-- doubles, but for the limit of an hour, which it never passes.
pub backoff_doubles :
    (n : ℕ)
    → 0 < n
    → (30 ≤ backoff n) × (backoff n ≤ 3600) × (backoff (n + 1) ≡ min (2 * backoff n) 3600)
unfolding backoff
backoff_doubles zero h = absurd (omega arith)
backoff_doubles (suc n) h = let (low, double) = power n in ground (arith, low, double)
