-- ===== src/Cache/Reading.antt =====
-- What is written is read back until it expires, also through get_or_set.
use crm_starter.Prelude.{
  ℕ, ◌≡◌, ◌∙◌, refl, ap, true, false, String, Option, none, some, if◌then◌else◌, leb, length,
}
use package.text.Mathlib.TextEquality.{eq_iff}
use crm_starter.Prelude.Assoc
use crm_starter.Prelude.Assoc.{lookup-insert}
use crm_starter.Core.Results.{Result, ok}
use crm_starter.Cache.{
  Entry, Cache, Backend, is_expired, deadline, get, set, evict, get_or_set, hit_of,
}

module _ {ℓ} {V : Type ℓ} where
  get_found :
      (c : Cache V) (now : ℕ) (key : String) (x : Entry V)
      → Assoc.lookup key c.entries ≡ some x
      → is_expired now x.expires ≡ false
      → (get c now key).0 ≡ some x.value
  unfolding get
  get_found c now key x e live = rw (get, e, live) refl

  -- A value is read back at any time up to its deadline, however full the cache was when it was
  -- written; a time to live of 0 is none.
  get-set :
      (c : Cache V) (now wait : ℕ) (key : String) (v : V) (ttl : Option ℕ)
      → is_expired wait (deadline now ttl) ≡ false
      → (get (set c now key v ttl) wait key).0 ≡ some v
  unfolding set
  get-set c now wait key v ttl live =
      let new : Entry V = record { expires = deadline now ttl; value = v } in
      let room = if leb c.max_entries (length c.entries) then evict c now else c.entries in
      get_found (set c now key v ttl) wait key new
        (lookup-insert key key new room
          ∙ ap (λ b. if b then some new else Assoc.lookup key room) ((eq_iff key key).1 refl))
        live

-- A cache behind the interface, at a time.
abbrev pub at_time {ℓ} : {V : Type ℓ} → ℕ → Option ℕ → Backend (Cache V) V
at_time now ttl = record {
  read = λ c key. (ok (get c now key).0, (get c now key).1);
  write = λ c key v. (ok true, set c now key v ttl);
}

module _ {ℓ} {S V : Type ℓ} where
  get_or_set_hit :
      (b : Backend S V) (s : S) (key : String) (v : V) (factory : Result (Option V))
      → hit_of (b.read s key).0 ≡ some v
      → (get_or_set b s key factory).0 ≡ ok (some v)
  unfolding get_or_set
  get_or_set_hit b s key v factory h = rw (get_or_set, h) refl

  get_or_set_miss :
      (b : Backend S V) (s : S) (key : String) (v : V)
      → hit_of (b.read s key).0 ≡ none
      → (get_or_set b s key (ok (some v))).1 ≡ (b.write (b.read s key).1 key v).1
  unfolding get_or_set
  get_or_set_miss b s key v h = rw (get_or_set, h) refl

module _ {ℓ} {V : Type ℓ} where
  -- Read through twice, first at a miss: the second answer is that of the first, while it has not expired, whatever the
  -- factory would give by then.
  pub get_or_set_twice :
      (c : Cache V) (now wait : ℕ) (key : String) (v : V) (ttl : Option ℕ)
      (again : Result (Option V))
      → (get c now key).0 ≡ none
      → is_expired wait (deadline now ttl) ≡ false
      → (get_or_set
          (at_time wait ttl)
          (get_or_set (at_time now ttl) c key (ok (some v))).1
          key
          again).0
        ≡ ok (some v)
  get_or_set_twice c now wait key v ttl again miss live =
      get_or_set_hit (at_time wait ttl) (get_or_set (at_time now ttl) c key (ok (some v))).1 key v
        again
        (ap (λ c'. (get c' wait key).0) (get_or_set_miss (at_time now ttl) c key v miss)
          ∙ get-set (get c now key).1 now wait key v ttl live)
