-- ===== src/Web/RateLimit/Waiting.antt =====
-- What `retry_after` promises to a caller who is over the limit.
use crm_starter.Prelude.{
  ℕ, ◌+◌, ◌-◌, ◌*◌, ◌/◌, ◌≡◌, ◌∙◌, refl, ap, sym, ◌≤◌, ◌<◌, true, false, String, some, arith, ltb,
  max,
}
use native.Mathlib.Nat.{
  mul-le-mul_right, mul-le-mul_left, mul_assoc, mul_comm, lt-mul-div-succ, mul-pos,
}
use crm_starter.Prelude.Assoc
use crm_starter.Web.RateLimit.{Bucket, RateLimiter, enabled, refilled, check, retry_after}
use crm_starter.Web.RateLimit.Bound.{enough}

module _ (l : RateLimiter) (on : enabled l ≡ true) (sound : 0 < l.second) (key : String)
    (b : Bucket) (found : Assoc.lookup key l.buckets ≡ some b) where
  per_second : 0 < l.rate * l.second
  per_second = mul-pos (ground (arith, on)) sound

  quotient : (l.unit - b.tokens) / (l.rate * l.second) ≤ retry_after l key
  unfolding retry_after
  quotient = rw here (omega arith)
    where
      here : retry_after l key ≡ max 1 ((l.unit - b.tokens) / (l.rate * l.second))
      here = simp (retry_after, found, on) refl

  -- The parts that come back in one second more than `retry_after`.
  regained : l.unit - b.tokens ≤ (retry_after l key + 1) * l.second * l.rate
  regained =
      let step = mul-le-mul_left (l.rate * l.second) (suc_le quotient) in
      omega (
        arith,
        step,
        lt-mul-div-succ (l.unit - b.tokens) per_second,
        swapped (retry_after l key + 1),
      )
    where
      suc_le : {m n : ℕ} → m ≤ n → m + 1 ≤ n + 1
      suc_le h = omega (arith, h)

      swapped : (n : ℕ) → n * l.second * l.rate ≡ l.rate * l.second * n
      swapped n =
          mul_comm (n * l.second) l.rate
          ∙ ap (λ x. l.rate * x) (mul_comm n l.second)
          ∙ sym (mul_assoc l.rate l.second n)

-- Of a limiter that is on, a caller with a bucket who waits one second more than `retry_after` says,
-- or longer, is let through, if the bucket is as it was.
pub retry_after-allowed :
    (l : RateLimiter) (key : String) (b : Bucket) (wait : ℕ)
    → enabled l ≡ true
    → 0 < l.second
    → Assoc.lookup key l.buckets ≡ some b
    → (retry_after l key + 1) * l.second ≤ wait
    → (check l (b.updated + wait) key).0 ≡ true
unfolding check
retry_after-allowed l key b wait on sound found long = rw (on, found, paid) refl
  where
    since : b.updated + wait - b.updated ≡ wait
    since = omega arith

    paid : ltb (refilled l (b.updated + wait) b) l.unit ≡ false
    paid = ground (
      arith,
      enough l on key,
      regained l on sound key b found,
      mul-le-mul_right l.rate long,
      ap (λ n. n * l.rate) since,
    )
