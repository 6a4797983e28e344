-- ===== src/Cache/Size.antt =====
-- A cache stays within its number of entries.
use crm_starter.Prelude.{
  ℕ, suc, ◌+◌, ◌-◌, ◌/◌, ◌≡◌, refl, ◌≤◌, ◌<◌, Bool, not, String, Option, List, [], ◌∷◌, arith, ltb,
  leb, length, take, keep, map, max, Bool-cases, Option-cases, inl, inr, str_eq, length-keep,
}
use package.text.Mathlib.TextEquality.{eq_iff}
use text.Mathlib.Text.{starts_with}
use crm_starter.Prelude.Assoc
use crm_starter.Prelude.Assoc.{Dict, pop, pop_all, length-insert, length-pop_all}
use crm_starter.Cache.{
  Entry, Cache, is_expired, deadline, get, evict, set, delete, clear, Call, read, write, forget,
  wipe, run,
}

module _ {ℓ} {V : Type ℓ} where
  pop_self :
      (name : String) (value : Entry V) (rest : Dict (Entry V))
      → length (pop name ((name, value) ∷ rest)) ≤ length rest
  unfolding pop
  pop_self name value rest =
      ground (arith, (eq_iff name name).1 refl, length-keep (λ e. not (str_eq e.0 name)) rest)

  pop_front :
      (d : Dict (Entry V)) (n : ℕ)
      → 0 < length d
      → length (pop_all (take (max 1 n) (map (λ e. e.0) d)) d) < length d
  unfolding pop_all pop
  pop_front [] n h = absurd (omega arith)
  pop_front ((name, value) ∷ rest) n h = rw (one_more n) (
      omega (
        arith,
        length-pop_all (take (max 1 n - 1) (map (λ e. e.0) rest)) (pop name ((name, value) ∷ rest)),
        pop_self name value rest,
      ))
    where
      one_more : (m : ℕ) → max 1 m ≡ suc (max 1 m - 1)
      one_more m = omega arith

  evict-room :
      (c : Cache V) (now : ℕ)
      → 0 < c.max_entries
      → length c.entries ≤ c.max_entries
      → length (evict c now) < c.max_entries
  unfolding evict
  evict-room c now h few = elim (Bool-cases (ltb (length fresh) c.max_entries)) [
    | inl e ↦ rw e (ground (arith, e))
    | inr e ↦ rw e (
        ground (arith, e, h, few, pop_front fresh (c.max_entries / 10), length-keep live c.entries))
  ]
    where
      live : String × Entry V → Bool
      live e = not (is_expired now e.1.expires)

      fresh : Dict (Entry V)
      fresh = keep live c.entries

  -- Within the limit, which stands.
  abbrev IsWithin : ℕ → Cache V → Type 0
  IsWithin n c = (c.max_entries ≡ n) × (length c.entries ≤ n)

  set-IsWithin :
      (n : ℕ) (c : Cache V) (now : ℕ) (key : String) (v : V) (ttl : Option ℕ)
      → 0 < n
      → IsWithin n c
      → IsWithin n (set c now key v ttl)
  unfolding set
  set-IsWithin n c now key v ttl h w =
      let new : Entry V = record { expires = deadline now ttl; value = v } in
      elim (Bool-cases (leb c.max_entries (length c.entries))) [
        | inl e ↦ rw e (
          w.0,
          omega (
            arith,
            length-insert key new (evict c now),
            evict-room c now (omega (arith, h, w)) (omega (arith, w)),
            w,
          ),
        )
        | inr e ↦ rw e (w.0, ground (arith, e, w, length-insert key new c.entries))
      ]

  get-IsWithin :
      (n : ℕ) (c : Cache V) (now : ℕ) (key : String) → IsWithin n c → IsWithin n (get c now key).1
  unfolding get pop
  get-IsWithin n c now key w = elim (Option-cases (Assoc.lookup key c.entries)) [
    | inl e ↦ rw (get, e) w
    | inr (x, e) ↦ elim (Bool-cases (is_expired now x.expires)) [
      | inl old ↦
          rw (get, e, old)
            (w.0, omega (arith, w, length-keep (λ y. not (str_eq y.0 key)) c.entries))
      | inr live ↦ rw (get, e, live) w
    ]
  ]

  clear-IsWithin :
      (n : ℕ) (c : Cache V) (prefix : String) → IsWithin n c → IsWithin n (clear c prefix)
  unfolding clear
  clear-IsWithin n c prefix w = elim (Bool-cases (str_eq prefix "")) [
    | inl e ↦ rw e (w.0, omega arith)
    | inr e ↦
        rw e (w.0, omega (arith, w, length-keep (λ y. not (starts_with y.0 prefix)) c.entries))
  ]

  -- Whatever is called, and in whatever order, a cache that starts within its limit of at least one entry stays
  -- within it.
  pub run-IsWithin :
      (c : Cache V) (now : ℕ) (calls : List (Call V))
      → 0 < c.max_entries
      → length c.entries ≤ c.max_entries
      → length (run c now calls).0.entries ≤ c.max_entries
  unfolding run delete
  run-IsWithin c now calls h few = (go c now calls (refl, few)).1
    where
      n : ℕ
      n = c.max_entries

      go : (c' : Cache V) (t : ℕ) (cs : List (Call V)) → IsWithin n c' → IsWithin n (run c' t cs).0
      go c' t [] w = w
      go c' t (read gap key ∷ cs) w =
          go (get c' (t + gap) key).1 (t + gap) cs (get-IsWithin n c' (t + gap) key w)
      go c' t (write gap key v ttl ∷ cs) w =
          go (set c' (t + gap) key v ttl) (t + gap) cs (set-IsWithin n c' (t + gap) key v ttl h w)
      go c' t (forget keys ∷ cs) w =
          go (delete c' keys) t cs (w.0, omega (arith, w, length-pop_all keys c'.entries))
      go c' t (wipe prefix ∷ cs) w = go (clear c' prefix) t cs (clear-IsWithin n c' prefix w)
