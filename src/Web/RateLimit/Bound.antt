-- ===== src/Web/RateLimit/Bound.antt =====
-- How many attempts of one key a limiter lets through in a time.
use crm_starter.Prelude.{
  ℕ, zero, suc, ◌+◌, ◌-◌, ◌*◌, ◌≡◌, ◌∙◌, refl, ap, sym, ◌≤◌, ◌<◌, inl, inr, Bool, true, false, not,
  String, Option, none, some, List, [], ◌∷◌, arith, ltb, leb, if◌then◌else◌, length, all,
  Bool-cases, Option-cases, str_eq, length-keep,
}
use native.Mathlib.Nat.{mul-le-mul_right, add-mul, suc-mul}
use package.text.Mathlib.TextEquality.{eq_iff}
use crm_starter.Prelude.Assoc
use crm_starter.Prelude.Assoc.{Dict, pop, length-insert, lookup-insert}
use crm_starter.Web.RateLimit.{
  Bucket, RateLimiter, enabled, capacity, refilled, check, reset, Event, attempt, signed_in,
  admitted, elapsed, spares,
}

grown :
    (rate now gap updated : ℕ) → (now + gap - updated) * rate ≤ (now - updated) * rate + gap * rate
grown rate now gap updated =
    omega (arith, mul-le-mul_right rate (later now gap updated), add-mul (now - updated) gap rate)
  where
    later : (n g u : ℕ) → n + g - u ≤ n - u + g
    later n g u = omega arith

lookup-pop :
    (k key : String) (d : Dict Bucket)
    → str_eq key k ≡ false
    → Assoc.lookup k (pop key d) ≡ Assoc.lookup k d
unfolding Assoc.lookup pop
lookup-pop k key [] h = refl
lookup-pop k key ((name, b) ∷ d) h =
    ground (arith, h, lookup-pop k key d h, eq_iff name key, eq_iff name k, eq_iff key k)

module _ (l : RateLimiter) (on : enabled l ≡ true) (k : String) where
  abbrev with_buckets : Dict Bucket → RateLimiter
  with_buckets d = record l { buckets = d }

  -- What the bucket of the key can pay for by now, were there no limit to what it holds.
  abbrev credit : Dict Bucket → ℕ → ℕ
  credit d now = elim (Assoc.lookup k d) [
    | none ↦ capacity l
    | some b ↦ b.tokens + (now - b.updated) * l.rate
  ]

  abbrev cost : Bool → ℕ
  cost b = if b then l.unit else 0

  abbrev Step : Dict Bucket → ℕ → String → Type 0
  Step d now key =
      (passed : Bool) × (d' : Dict Bucket) × (check (with_buckets d) now key
        ≡ (passed, with_buckets d'))
      × (length d' ≤ suc (length d))
      × (str_eq key k ≡ true → cost passed + credit d' now ≤ credit d now)
      × (str_eq key k ≡ false → Assoc.lookup k d' ≡ Assoc.lookup k d)

  pub enough : l.unit ≤ capacity l
  enough = go l.burst (ground (arith, on))
    where
      go : (n : ℕ) → 0 < n → l.unit ≤ n * l.unit
      go zero h = absurd (omega arith)
      go (suc n) h = omega (arith, suc-mul n l.unit)

  abbrev worth : ℕ → Option Bucket → ℕ
  worth now none = capacity l
  worth now (some b) = b.tokens + (now - b.updated) * l.rate

  -- A bucket that was just written is worth its tokens.
  credit-insert :
      (d : Dict Bucket) (now tokens : ℕ) (key : String)
      → str_eq key k ≡ true
      → credit (Assoc.insert key (record { tokens = tokens; updated = now }) d) now ≡ tokens
  credit-insert d now tokens key h =
      ap (worth now) (
        lookup-insert key k (record { tokens = tokens; updated = now }) d
        ∙ ap (λ b. if b then some (record { tokens = tokens; updated = now }) else Assoc.lookup k d)
            h)
      ∙ nothing
    where
      nothing : tokens + (now - now) * l.rate ≡ tokens
      nothing = omega (arith, ap (λ n. n * l.rate) {x = now - now} {y = 0} (omega arith))

  other-insert :
      (d : Dict Bucket) (b : Bucket) (key : String)
      → str_eq key k ≡ false
      → Assoc.lookup k (Assoc.insert key b d) ≡ Assoc.lookup k d
  other-insert d b key h =
      lookup-insert key k b d ∙ ap (λ c. if c then some b else Assoc.lookup k d) h

  -- What the key's bucket is worth, where it is found under `key`.
  same_credit :
      (d : Dict Bucket) (now : ℕ) (key : String) (o : Option Bucket)
      → str_eq key k ≡ true
      → Assoc.lookup key d ≡ o
      → credit d now ≡ worth now o
  same_credit d now key o h e =
      ap (λ x. worth now (Assoc.lookup x d)) (sym ((eq_iff key k).0 h)) ∙ ap (worth now) e

  step : (d : Dict Bucket) (now : ℕ) (key : String) → length d < l.max_keys → Step d now key
  unfolding check
  step d now key h = elim (Option-cases (Assoc.lookup key d)) [
    | inl e ↦
        let new : Bucket = record { tokens = capacity l - l.unit; updated = now } in
        (
          true,
          Assoc.insert key new d,
          rw (on, e, le_keys) refl,
          length-insert key new d,
          λ same. omega (
            arith,
            enough,
            credit-insert d now (capacity l - l.unit) key same,
            same_credit d now key none same e,
          ),
          other-insert d new key,
        )
    | inr (b, e) ↦ elim (Bool-cases (ltb (refilled l now b) l.unit)) [
      | inl empty ↦
          let new : Bucket = record { tokens = refilled l now b; updated = now } in
          (
            false,
            Assoc.insert key new d,
            rw (on, e, empty) refl,
            length-insert key new d,
            λ same. omega (
              arith,
              credit-insert d now (refilled l now b) key same,
              same_credit d now key (some b) same e,
            ),
            other-insert d new key,
          )
      | inr paid ↦
          let new : Bucket = record { tokens = refilled l now b - l.unit; updated = now } in
          (
            true,
            Assoc.insert key new d,
            rw (on, e, paid) refl,
            length-insert key new d,
            λ same. ground (
              arith,
              paid,
              credit-insert d now (refilled l now b - l.unit) key same,
              same_credit d now key (some b) same e,
            ),
            other-insert d new key,
          )
    ]
  ]
    where
      le_keys : leb l.max_keys (length d) ≡ false
      le_keys = ground (arith, h)

  credit-grown :
      (d : Dict Bucket) (now gap : ℕ) → credit d (now + gap) ≤ credit d now + gap * l.rate
  credit-grown d now gap = go (Assoc.lookup k d)
    where
      go : (o : Option Bucket) → worth (now + gap) o ≤ worth now o + gap * l.rate
      go none = omega arith
      go (some b) = omega (arith, grown l.rate now gap b.updated)

  pay :
      (passed : Bool) (n after before r : ℕ)
      → n * l.unit ≤ after + r
      → cost passed + after ≤ before
      → (if passed then suc n else n) * l.unit ≤ before + r
  pay true n after before r h p = omega (arith, suc-mul n l.unit)
  pay false n after before r h p = omega arith

  spent :
      (d : Dict Bucket) (now : ℕ) (events : List Event)
      → length d + length events ≤ l.max_keys
      → all (spares k) events ≡ true
      → admitted k (with_buckets d) now events * l.unit ≤ credit d now + elapsed events * l.rate
  unfolding admitted reset pop
  spent d now [] h s = omega arith
  spent d now (attempt gap key ∷ events) h s =
      let (passed, d', e, few, paid, other) = step d (now + gap) key (omega (arith, h)) in
      let rest = spent d' (now + gap) events (omega (arith, h, few)) s in
      elim (Bool-cases (str_eq key k)) [
        | inl same ↦
            rw (e, same)
              (omega (
                arith,
                pay passed (admitted k (with_buckets d') (now + gap) events) (credit d' (now + gap))
                    (credit d (now + gap)) (elapsed events * l.rate) rest (paid same),
                credit-grown d now gap,
                add-mul gap (elapsed events) l.rate,
              ))
        | inr not_same ↦
            rw (e, not_same)
              (omega (
                arith,
                rest,
                ap (worth (now + gap)) (other not_same),
                credit-grown d now gap,
                add-mul gap (elapsed events) l.rate,
              ))
      ]
  spent d now (signed_in key ∷ events) h s = omega (
    arith,
    spent (pop key d) now events room (ground (arith, s)),
    ap (worth now) (lookup-pop k key d (ground (arith, s))),
  )
    where
      room : length (pop key d) + length events ≤ l.max_keys
      room = omega (arith, h, length-keep (λ e. not (str_eq e.0 key)) d)

-- In a limiter that is on, and a run that starts with no bucket for a key, that does not fill the limiter, and in which the key
-- does not sign in, the attempts that pass are paid for by one burst and by what comes back in the time
-- of the run.
pub admitted_bound :
    (l : RateLimiter) (k : String) (now : ℕ) (events : List Event)
    → enabled l ≡ true
    → Assoc.lookup k l.buckets ≡ none
    → length l.buckets + length events ≤ l.max_keys
    → all (spares k) events ≡ true
    → admitted k l now events * l.unit ≤ l.burst * l.unit + elapsed events * l.rate
admitted_bound l k now events on new room s =
    omega (arith, spent l on k l.buckets now events room s, ap (worth l on k now) new)
