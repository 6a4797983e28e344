-- ===== src/Web/RateLimit.antt =====
-- app/web/ratelimit.py: a token bucket for each key. Time is counted in ticks, `second` of them to a
-- second, and tokens in parts, `unit` of them to a token, so that `rate`, the parts that come back in
-- a tick, is a whole number; the source's floats are not rounded here.
pub mod Bound
pub mod Keys
pub mod Waiting
use crm_starter.Prelude.{
  ℕ, ◌+◌, ◌-◌, ◌*◌, ◌/◌, Bool, true, false, not, ◌&&◌, String, Option, none, some, List, [], ◌∷◌,
  ltb, leb, if◌then◌else◌, length, take, keep, map, min, max, suc, str_eq,
}
use crm_starter.Prelude.Assoc
use crm_starter.Prelude.Assoc.{Dict, pop, pop_all}
use crm_starter.Prelude.Sort as Order_by

pub record Bucket : Type 0 where
  pub tokens : ℕ
  pub updated : ℕ

pub record RateLimiter : Type 0 where
  pub rate : ℕ
  pub unit : ℕ
  pub second : ℕ
  pub burst : ℕ
  pub idle : ℕ
  pub max_keys : ℕ
  pub buckets : Dict Bucket

abbrev pub enabled : RateLimiter → Bool
enabled l = ltb 0 l.rate && ltb 0 l.burst

abbrev pub capacity : RateLimiter → ℕ
capacity l = l.burst * l.unit

abbrev pub is_fresh : RateLimiter → ℕ → String × Bucket → Bool
is_fresh l now entry = not (ltb l.idle (now - entry.1.updated))

abbrev pub older : String × Bucket → String × Bucket → Bool
older a b = ltb a.1.updated b.1.updated

-- The keys of the buckets to drop where dropping the idle ones made no room.
unfoldable pub oldest : ℕ → Dict Bucket → List String
oldest max_keys d = take (max 1 (max_keys / 10)) (map (λ e. e.0) (Order_by.sort older d))

unfoldable pub evict : RateLimiter → ℕ → Dict Bucket
evict l now =
    let fresh = keep (is_fresh l now) l.buckets in
    if leb l.max_keys (length fresh) then pop_all (oldest l.max_keys fresh) fresh else fresh

-- The tokens of a bucket by now.
abbrev pub refilled : RateLimiter → ℕ → Bucket → ℕ
refilled l now b = min (capacity l) (b.tokens + (now - b.updated) * l.rate)

-- `check`: whether the caller may go on, and the limiter after it.
unfoldable pub check : RateLimiter → ℕ → String → Bool × RateLimiter
check l now key = if not (enabled l) then (true, l) else elim (Assoc.lookup key l.buckets) [
  | none ↦
      let room = if leb l.max_keys (length l.buckets) then evict l now else l.buckets in
      let new : Bucket = record { tokens = capacity l - l.unit; updated = now } in
      (true, record l { buckets = Assoc.insert key new room })
  | some b ↦
      let tokens = refilled l now b in
      if ltb tokens l.unit
      then (
        false,
        record l {
          buckets = Assoc.insert key (record { tokens = tokens; updated = now }) l.buckets;
        },
      )
      else (
        true,
        record l {
          buckets = Assoc.insert key (record { tokens = tokens - l.unit; updated = now }) l.buckets;
        },
      )
]

-- Seconds until one more attempt would be allowed.
unfoldable pub retry_after : RateLimiter → String → ℕ
retry_after l key = elim (Assoc.lookup key l.buckets) [
  | none ↦ 0
  | some b ↦ if not (enabled l) then 0 else max 1 ((l.unit - b.tokens) / (l.rate * l.second))
]

unfoldable pub reset : RateLimiter → String → RateLimiter
reset l key = record l { buckets = pop key l.buckets }

-- What happens to a limiter: an attempt some ticks after the event before, or a successful sign-in.
pub data Event : Type 0 where
  attempt : ℕ → String → Event
  signed_in : String → Event

-- The limiter after a run of events that starts at `now`.
unfoldable pub run : RateLimiter → ℕ → List Event → RateLimiter
run l now [] = l
run l now (attempt gap key ∷ events) = run (check l (now + gap) key).1 (now + gap) events
run l now (signed_in key ∷ events) = run (reset l key) now events

-- How many attempts of `key` a run lets through.
unfoldable pub admitted : String → RateLimiter → ℕ → List Event → ℕ
admitted k l now [] = 0
admitted k l now (attempt gap key ∷ events) =
    let (passed, after) = check l (now + gap) key in
    let rest = admitted k after (now + gap) events in
    if str_eq key k && passed then suc rest else rest
admitted k l now (signed_in key ∷ events) = admitted k (reset l key) now events

-- The ticks of a run.
abbrev pub elapsed : List Event → ℕ
elapsed [] = 0
elapsed (attempt gap key ∷ events) = gap + elapsed events
elapsed (signed_in key ∷ events) = elapsed events

-- The event is no sign-in of `key`.
abbrev pub spares : String → Event → Bool
spares k (attempt gap key) = true
spares k (signed_in key) = not (str_eq key k)
