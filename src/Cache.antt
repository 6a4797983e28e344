-- ===== src/Cache.antt =====
-- app/cache/base.py: MemoryCache, and the reading through of BaseCache. An entry holds a value that is
-- not None, since get gives None for a miss. Time is counted in ticks.
pub mod Ideal
pub mod Size
pub mod Reading
use text.Mathlib.Text.{starts_with}
use crm_starter.Prelude.{
  ℕ, ◌+◌, ◌/◌, Bool, true, false, not, String, Option, none, some, List, [], ◌∷◌, ltb, leb, ◌==◌,
  if◌then◌else◌, length, take, keep, map, max, str_eq,
}
use crm_starter.Prelude.Assoc
use crm_starter.Prelude.Assoc.{Dict, pop, pop_all}
use crm_starter.Core.Results.{Error, Result, ok, raise}

pub record Entry {ℓ} (V : Type ℓ) : Type ℓ where
  pub expires : Option ℕ
  pub value : V

pub record Cache {ℓ} (V : Type ℓ) : Type ℓ where
  pub entries : Dict (Entry V)
  pub max_entries : ℕ

abbrev pub is_expired : ℕ → Option ℕ → Bool
is_expired now none = false
is_expired now (some t) = ltb t now

-- `time.monotonic() + ttl if ttl else None`.
abbrev pub deadline : ℕ → Option ℕ → Option ℕ
deadline now none = none
deadline now (some ttl) = if ttl == 0 then none else some (now + ttl)

module _ {ℓ} {V : Type ℓ} where
  unfoldable pub get : Cache V → ℕ → String → Option V × Cache V
  get c now key = elim (Assoc.lookup key c.entries) [
    | none ↦ (none, c)
    | some e ↦
        if is_expired now e.expires
        then (none, record c { entries = pop key c.entries })
        else (some e.value, c)
  ]

  -- Drop what has expired, and failing that the oldest tenth.
  unfoldable pub evict : Cache V → ℕ → Dict (Entry V)
  evict c now =
      let fresh = keep (λ e. not (is_expired now e.1.expires)) c.entries in
      if ltb (length fresh) c.max_entries
      then fresh
      else pop_all (take (max 1 (c.max_entries / 10)) (map (λ e. e.0) fresh)) fresh

  unfoldable pub set : Cache V → ℕ → String → V → Option ℕ → Cache V
  set c now key v ttl =
      let room = if leb c.max_entries (length c.entries) then evict c now else c.entries in
      let new : Entry V = record { expires = deadline now ttl; value = v } in
      record c { entries = Assoc.insert key new room }

  unfoldable pub delete : Cache V → List String → Cache V
  delete c keys = record c { entries = pop_all keys c.entries }

  unfoldable pub clear : Cache V → String → Cache V
  clear c prefix =
      if str_eq prefix ""
      then record c { entries = [] }
      else record c { entries = keep (λ e. not (starts_with e.0 prefix)) c.entries }

  -- The values found, added to those found before.
  unfoldable pub get_many : Cache V → ℕ → List String → Dict V → Dict V × Cache V
  get_many c now [] found = (found, c)
  get_many c now (key ∷ keys) found =
      let (answer, after) = get c now key in
      get_many after now keys (elim answer [ none ↦ found | some v ↦ Assoc.insert key v found ])

  unfoldable pub set_many : Cache V → ℕ → Dict V → Option ℕ → Cache V
  set_many c now [] ttl = c
  set_many c now ((key, v) ∷ values) ttl = set_many (set c now key v ttl) now values ttl

-- A cache behind its interface: a call may raise, and leaves some state behind.
pub record Backend {ℓ} (S V : Type ℓ) : Type ℓ where
  pub read : S → String → Result (Option V) × S
  pub write : S → String → V → Result Bool × S

-- What a read found; an error is a miss.
abbrev pub hit_of {ℓ} : {V : Type ℓ} → Result (Option V) → Option V
hit_of (ok found) = found
hit_of (raise e) = none

module _ {ℓ} {S V : Type ℓ} where
  -- `get_or_set`: the state beside the answer; `factory` may raise or give None.
  unfoldable pub get_or_set : Backend S V → S → String → Result (Option V) → Result (Option V) × S
  get_or_set b s key factory =
      let (answer, after) = b.read s key in
      elim (hit_of answer) [
        | some v ↦ (ok (some v), after)
        | none ↦ elim factory [
          | raise e ↦ (raise e, after)
          | ok none ↦ (ok none, after)
          | ok (some v) ↦ (ok (some v), (b.write after key v).1)
        ]
      ]

-- A call of the cache, some ticks after the call before.
pub data Call {ℓ} (V : Type ℓ) : Type ℓ where
  read : ℕ → String → Call V
  write : ℕ → String → V → Option ℕ → Call V
  forget : List String → Call V
  wipe : String → Call V

module _ {ℓ} {V : Type ℓ} where
  -- The cache, and the time, after a run of calls that starts at `now`.
  unfoldable pub run : Cache V → ℕ → List (Call V) → Cache V × ℕ
  run c now [] = (c, now)
  run c now (read gap key ∷ calls) = run (get c (now + gap) key).1 (now + gap) calls
  run c now (write gap key v ttl ∷ calls) = run (set c (now + gap) key v ttl) (now + gap) calls
  run c now (forget keys ∷ calls) = run (delete c keys) now calls
  run c now (wipe prefix ∷ calls) = run (clear c prefix) now calls
