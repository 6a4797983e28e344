-- ===== src/Tests/Web.antt =====
-- The rate limiter at concrete runs.
use crm_starter.Prelude.{◌≡◌, refl, ◌+◌, ◌*◌, ◌≤◌, true, false, [], ◌∷◌, List, arith}
use crm_starter.Prelude.Assoc
use crm_starter.Web.RateLimit.{
  RateLimiter, check, retry_after, Event, attempt, signed_in, run, admitted, elapsed,
}
use crm_starter.Web.RateLimit.Keys.{IsBounded, run-IsBounded}
use crm_starter.Web.RateLimit.Bound.{admitted_bound}
use crm_starter.Web.RateLimit.Waiting.{retry_after-allowed}

-- Three attempts at once and then 0.3 in a second, in milliseconds and thousandths of a token.
abbrev slow : RateLimiter
slow = record {
  rate = 3;
  unit = 10000;
  second = 1000;
  burst = 3;
  idle = 3600000;
  max_keys = 5;
  buckets = [];
}

-- Two attempts of one key, one of another, a sign-in of that, and a third of the first.
abbrev knocks : List Event
knocks = attempt 0 "a" ∷ attempt 10 "a" ∷ attempt 10 "b" ∷ signed_in "b" ∷ attempt 10 "a" ∷ []

run-IsBounded_example : IsBounded (run slow 0 knocks)
run-IsBounded_example =
    run-IsBounded slow 0 knocks (omega arith) (record { few = omega arith; full = tt })

admitted_bound_example :
    admitted "a" slow 0 knocks * slow.unit ≤ slow.burst * slow.unit + elapsed knocks * slow.rate
unfolding Assoc.lookup
admitted_bound_example = admitted_bound slow "a" 0 knocks refl refl (omega arith) refl

-- A bucket that was emptied.
abbrev emptied : RateLimiter
emptied = record slow { buckets = ("a", record { tokens = 0; updated = 50 }) ∷ [] }

retry_after-allowed_example : (check emptied (50 + 4000) "a").0 ≡ true
unfolding retry_after Assoc.lookup
retry_after-allowed_example =
    retry_after-allowed emptied "a" (record { tokens = 0; updated = 50 }) 4000 refl (omega arith)
      refl le
  where
    le : (retry_after emptied "a" + 1) * emptied.second ≤ 4000
    le = omega arith

-- After the three seconds of `retry_after` itself there is not yet a token.
too_early : (check emptied (50 + retry_after emptied "a" * 1000) "a").0 ≡ false
unfolding check Assoc.lookup retry_after
too_early = refl
