-- ===== src/Web/RateLimit/Keys.antt =====
-- The limiter stays within its number of keys, and no bucket holds more than a burst.
use crm_starter.Prelude.{
  ℕ, suc, ◌+◌, ◌-◌, ◌/◌, ◌≡◌, ◌∙◌, refl, ap, sym, ◌≤◌, ◌<◌, ◌⊎◌, inl, inr, Bool, true, not, String,
  some, List, [], ◌∷◌, arith, ltb, leb, if◌then◌else◌, length, take, keep, map, max, All,
  All-keep_of, Bool-cases, Option-cases, str_eq, length-keep, All-if,
}
use mathlib.Core.Path.{subst}
use package.text.Mathlib.TextEquality.{eq_iff}
use crm_starter.Prelude.Assoc
use crm_starter.Prelude.Assoc.{
  Dict, pop, pop_all, length-insert, length-insert_again, length-pop_all, insert-All, pop_all-All,
}
use crm_starter.Prelude.Sort as Order_by
use crm_starter.Prelude.Sort.{sort-All}
use crm_starter.Prelude.Tables.{length-sort}
use crm_starter.Web.RateLimit.{
  Bucket, RateLimiter, enabled, capacity, is_fresh, older, oldest, evict, refilled, check, reset,
  Event, attempt, signed_in, run,
}

fewer {ℓ} :
    {A : Type ℓ} (p : A → Bool) (xs : List A)
    → (length (keep p xs) < length xs) ⊎ All (λ x. p x ≡ true) xs
fewer p [] = inr tt
fewer p (x ∷ xs) = elim (Bool-cases (p x)) [
  | inl e ↦ elim (fewer p xs) [
    | inl less ↦ rw e (inl (ground (arith, less)))
    | inr every ↦ inr (e, every)
  ]
  | inr e ↦ rw e (inl (ground (arith, length-keep p xs)))
]

-- To drop the first of the sorted buckets is to drop a bucket.
pop_first :
    (d : Dict Bucket) (e : String × Bucket) (es : List (String × Bucket))
    → Order_by.sort older d ≡ e ∷ es
    → length (pop e.0 d) < length d
unfolding pop
pop_first d e es h = elim (fewer (λ x. not (str_eq x.0 e.0)) d) [
  | inl less ↦ less
  | inr every ↦ absurd (ground (arith, (eq_iff e.0 e.0).1 refl, dropped every))
]
  where
    dropped : All (λ x. not (str_eq x.0 e.0) ≡ true) d → not (str_eq e.0 e.0) ≡ true
    dropped every = (subst (All (λ x. not (str_eq x.0 e.0) ≡ true)) h (sort-All older _ d every)).0

pop_oldest : (n : ℕ) (d : Dict Bucket) → 0 < length d → length (pop_all (oldest n d) d) < length d
unfolding oldest pop_all
pop_oldest n d h = go (Order_by.sort older d) refl
  where
    some_key : max 1 (n / 10) ≡ suc (max 1 (n / 10) - 1)
    some_key = omega arith

    go :
        (s : List (String × Bucket))
        → Order_by.sort older d ≡ s
        → length (pop_all (take (max 1 (n / 10)) (map (λ e. e.0) s)) d) < length d
    go [] e = absurd (omega (arith, sym (length-sort older d) ∙ ap length e))
    go (e ∷ es) k = rw some_key (
        omega (
          arith,
          pop_first d e es k,
          length-pop_all (take (max 1 (n / 10) - 1) (map (λ x. x.0) es)) (pop e.0 d),
        ))

-- No more buckets than keys are allowed, none with more than a burst.
pub record IsBounded (l : RateLimiter) : Type 0 where
  pub few : length l.buckets ≤ l.max_keys
  pub full : All (λ e. e.1.tokens ≤ capacity l) l.buckets

module _ (l : RateLimiter) (w : IsBounded l) where
  evict-room : (now : ℕ) → 0 < l.max_keys → length (evict l now) < l.max_keys
  unfolding evict
  evict-room now h = elim (Bool-cases (leb l.max_keys (length fresh))) [
    | inl e ↦ rw e (
        ground
          (arith, pop_oldest l.max_keys fresh, w.few, h, e, length-keep (is_fresh l now) l.buckets))
    | inr e ↦ rw e (ground (arith, e))
  ]
    where
      fresh : Dict Bucket
      fresh = keep (is_fresh l now) l.buckets

  evict-full : (now : ℕ) → All (λ e. e.1.tokens ≤ capacity l) (evict l now)
  unfolding evict
  evict-full now =
      All-if _ (leb l.max_keys (length (keep (is_fresh l now) l.buckets))) _ _
        (pop_all-All _ (oldest l.max_keys (keep (is_fresh l now) l.buckets)) _ fresh_full)
        fresh_full
    where
      fresh_full : All (λ e. e.1.tokens ≤ capacity l) (keep (is_fresh l now) l.buckets)
      fresh_full = All-keep_of _ (is_fresh l now) l.buckets w.full

  stored :
      (d : Dict Bucket) (tokens now : ℕ) (key : String)
      → length (Assoc.insert key (record { tokens = tokens; updated = now }) d) ≤ l.max_keys
      → All (λ e. e.1.tokens ≤ capacity l) d
      → tokens ≤ capacity l
      → IsBounded
          (record l { buckets = Assoc.insert key (record { tokens = tokens; updated = now }) d })
  stored d tokens now key few full t = record {
    few = few;
    full =
        insert-All (λ e. e.1.tokens ≤ capacity l) key (record { tokens = tokens; updated = now }) d
          t full;
  }

  -- The buckets among which a new key gets its own.
  abbrev room : ℕ → Dict Bucket
  room now = if leb l.max_keys (length l.buckets) then evict l now else l.buckets

  room_full : (now : ℕ) → All (λ e. e.1.tokens ≤ capacity l) (room now)
  room_full now = All-if _ (leb l.max_keys (length l.buckets)) _ _ (evict-full now) w.full

  new_few :
      (now : ℕ) (key : String)
      → 0 < l.max_keys
      → (b : Bucket) → length (Assoc.insert key b (room now)) ≤ l.max_keys
  new_few now key h b = elim (Bool-cases (leb l.max_keys (length l.buckets))) [
    | inl e ↦ rw e (omega (arith, length-insert key b (evict l now), evict-room now h))
    | inr e ↦ rw e (ground (arith, e, length-insert key b l.buckets))
  ]

  old_few :
      (now : ℕ) (key : String) (b new : Bucket)
      → Assoc.lookup key l.buckets ≡ some b
      → length (Assoc.insert key new l.buckets) ≤ l.max_keys
  old_few now key b new e = rw (length-insert_again key new b l.buckets e) w.few

  check-IsBounded : (now : ℕ) (key : String) → 0 < l.max_keys → IsBounded (check l now key).1
  unfolding check
  check-IsBounded now key h = elim (Bool-cases (enabled l)) [
    | inr off ↦ rw off w
    | inl on ↦ elim (Option-cases (Assoc.lookup key l.buckets)) [
      | inl e ↦
          rw (on, e)
            (stored (room now) (capacity l - l.unit) now key (new_few now key h _) (room_full now)
              (omega arith))
      | inr (b, e) ↦ elim (Bool-cases (ltb (refilled l now b) l.unit)) [
        | inl empty ↦
            rw (on, e, empty)
              (stored l.buckets (refilled l now b) now key (old_few now key b _ e) w.full
                (omega arith))
        | inr paid ↦
            rw (on, e, paid)
              (stored l.buckets (refilled l now b - l.unit) now key (old_few now key b _ e) w.full
                (omega arith))
      ]
    ]
  ]

  reset-IsBounded : (key : String) → IsBounded (reset l key)
  unfolding reset pop
  reset-IsBounded key = record {
    few = ground (arith, w.few, length-keep (λ e. not (str_eq e.0 key)) l.buckets);
    full = All-keep_of _ (λ e. not (str_eq e.0 key)) l.buckets w.full;
  }

kept_keys : (l : RateLimiter) (now : ℕ) (key : String) → (check l now key).1.max_keys ≡ l.max_keys
unfolding check
kept_keys l now key = elim (Bool-cases (enabled l)) [
  | inr off ↦ rw off refl
  | inl on ↦ elim (Option-cases (Assoc.lookup key l.buckets)) [
    | inl e ↦ rw (on, e) refl
    | inr (b, e) ↦ elim (Bool-cases (ltb (refilled l now b) l.unit)) [
      | inl empty ↦ rw (on, e, empty) refl
      | inr paid ↦ rw (on, e, paid) refl
    ]
  ]
]

-- However many keys knock and however they are timed, a limiter that may hold a key and starts within
-- its bounds never
-- holds more buckets than it may, nor a bucket with more than a burst of tokens.
pub run-IsBounded :
    (l : RateLimiter) (now : ℕ) (events : List Event)
    → 0 < l.max_keys
    → IsBounded l
    → IsBounded (run l now events)
unfolding run reset
run-IsBounded l now [] h w = w
run-IsBounded l now (attempt gap key ∷ events) h w =
    run-IsBounded (check l (now + gap) key).1 (now + gap) events
      (rw (kept_keys l (now + gap) key) h) (check-IsBounded l w (now + gap) key h)
run-IsBounded l now (signed_in key ∷ events) h w =
    run-IsBounded (reset l key) now events (kept h) (reset-IsBounded l w key)
  where
    kept : 0 < l.max_keys → 0 < (reset l key).max_keys
    kept k = k
