-- ===== src/Cache/Ideal.antt =====
-- What a cache answers is what a store would answer that has room for everything.
use text.Mathlib.Text.{starts_with}
use crm_starter.Prelude.{
  ℕ, ◌+◌, ◌/◌, ◌≡◌, ◌∙◌, refl, ap, Bool, true, false, not, ◌||◌, String, Option, none, some, List,
  [], ◌∷◌, arith, if◌then◌else◌, any, keep, map, take, max, All, All-map, All-keep, All-keep_of,
  All-both, Bool-cases, Option-cases, inl, inr, ltb, leb, length, str_eq,
}
use package.text.Mathlib.TextEquality.{eq_iff}
use crm_starter.Prelude.Assoc
use crm_starter.Prelude.Assoc.{
  Dict, pop, pop_all, IsDict, keep-IsDict, pop_all-IsDict, insert-IsDict, insert-All_other,
  pop_all-All, lookup-All, lookup-insert,
}
use crm_starter.Cache.{
  Entry, Cache, is_expired, deadline, get, evict, set, delete, clear, Call, read, write, forget,
  wipe, run,
}

-- A store without a limit that forgets nothing by itself.
abbrev pub Store {ℓ} : Type ℓ → Type ℓ
Store V = String → Option (Entry V)

module _ {ℓ} {V : Type ℓ} where
  abbrev pub put : Store V → ℕ → String → V → Option ℕ → Store V
  put f now key v ttl other =
      if str_eq key other then some (record { expires = deadline now ttl; value = v }) else f other

  abbrev pub drop_keys : Store V → List String → Store V
  drop_keys f keys other = if any (λ key. str_eq other key) keys then none else f other

  abbrev pub drop_prefix : Store V → String → Store V
  drop_prefix f prefix other =
      if str_eq prefix "" || starts_with other prefix then none else f other

  -- The store after a run of calls.
  unfoldable pub stored : Store V → ℕ → List (Call V) → Store V
  stored f now [] = f
  stored f now (read gap key ∷ calls) = stored f (now + gap) calls
  stored f now (write gap key v ttl ∷ calls) =
      stored (put f (now + gap) key v ttl) (now + gap) calls
  stored f now (forget keys ∷ calls) = stored (drop_keys f keys) now calls
  stored f now (wipe prefix ∷ calls) = stored (drop_prefix f prefix) now calls

  -- What the store answers at a time.
  abbrev pub answer : ℕ → Option (Entry V) → Option V
  answer now none = none
  answer now (some e) = if is_expired now e.expires then none else some e.value

  -- Each entry of the cache is that of the store.
  abbrev Below : Cache V → Store V → Type ℓ
  Below c f = IsDict c.entries × All (λ e. f e.0 ≡ some e.1) c.entries

  get-Below :
      (c : Cache V) (f : Store V) (now : ℕ) (key : String) → Below c f → Below (get c now key).1 f
  unfolding get pop
  get-Below c f now key h = elim (Option-cases (Assoc.lookup key c.entries)) [
    | inl e ↦ rw (get, e) h
    | inr (x, e) ↦ elim (Bool-cases (is_expired now x.expires)) [
      | inl old ↦
          rw (get, e, old)
            (
              keep-IsDict (λ y. not (str_eq y.0 key)) c.entries h.0,
              All-keep_of _ (λ y. not (str_eq y.0 key)) c.entries h.1,
            )
      | inr live ↦ rw (get, e, live) h
    ]
  ]

  evict-Below :
      (c : Cache V) (f : Store V) (now : ℕ)
      → Below c f
      → Below (record c { entries = evict c now }) f
  unfolding evict
  evict-Below c f now h = elim (Bool-cases (ltb (length fresh) c.max_entries)) [
    | inl e ↦ rw e (dict, all)
    | inr e ↦ rw e (pop_all-IsDict keys fresh dict, pop_all-All _ keys fresh all)
  ]
    where
      live : String × Entry V → Bool
      live e = not (is_expired now e.1.expires)

      fresh : Dict (Entry V)
      fresh = keep live c.entries

      keys : List String
      keys = take (max 1 (c.max_entries / 10)) (map (λ e. e.0) fresh)

      dict : IsDict fresh
      dict = keep-IsDict live c.entries h.0

      all : All (λ e. f e.0 ≡ some e.1) fresh
      all = All-keep_of _ live c.entries h.1

  room-Below :
      (c : Cache V) (f : Store V) (now : ℕ)
      → Below c f
      → Below
          (record c {
            entries = if leb c.max_entries (length c.entries) then evict c now else c.entries;
          })
          f
  room-Below c f now h = elim (Bool-cases (leb c.max_entries (length c.entries))) [
    | inl e ↦ rw e (evict-Below c f now h)
    | inr e ↦ rw e h
  ]

  put_same :
      (f : Store V) (now : ℕ) (key : String) (v : V) (ttl : Option ℕ)
      → put f now key v ttl key ≡ some (record { expires = deadline now ttl; value = v })
  put_same f now key v ttl =
      ap (λ b. if b then some (record { expires = deadline now ttl; value = v }) else f key)
        ((eq_iff key key).1 refl)

  put_other :
      (f : Store V) (now : ℕ) (key other : String) (v : V) (ttl : Option ℕ)
      → str_eq key other ≡ false
      → put f now key v ttl other ≡ f other
  put_other f now key other v ttl h =
      ap (λ b. if b then some (record { expires = deadline now ttl; value = v }) else f other) h

  popped :
      (keys : List String) (d : Dict (Entry V))
      → All (λ e. any (λ key. str_eq e.0 key) keys ≡ false) (pop_all keys d)
  unfolding pop_all pop
  popped [] d = go d
    where
      go : (xs : Dict (Entry V)) → All (λ e. false ≡ false) xs
      go [] = tt
      go (x ∷ xs) = (refl, go xs)
  popped (key ∷ keys) d =
      All-both _ _ _ (pop_all keys (pop key d)) (λ e first others. ground (arith, first, others))
        (pop_all-All (λ e. not (str_eq e.0 key) ≡ true) keys (pop key d)
          (All-keep (λ e. not (str_eq e.0 key)) d))
        (popped keys (pop key d))

  set-Below :
      (c : Cache V) (f : Store V) (now : ℕ) (key : String) (v : V) (ttl : Option ℕ)
      → Below c f
      → Below (set c now key v ttl) (put f now key v ttl)
  unfolding set
  set-Below c f now key v ttl h =
      let r = room-Below c f now h in
      (
        insert-IsDict key _ _ r.0,
        insert-All_other _ key _ _ r.0 (put_same f now key v ttl)
            (All-map _ _ _ (λ e same other. put_other f now key e.0 v ttl other ∙ same) r.1),
      )

  delete-Below :
      (c : Cache V) (f : Store V) (keys : List String)
      → Below c f
      → Below (delete c keys) (drop_keys f keys)
  unfolding delete
  delete-Below c f keys h = (
    pop_all-IsDict keys c.entries h.0,
    All-both _ _ _ (pop_all keys c.entries) (λ e gone same. rw gone same) (popped keys c.entries)
        (pop_all-All _ keys c.entries h.1),
  )

  clear-Below :
      (c : Cache V) (f : Store V) (prefix : String)
      → Below c f
      → Below (clear c prefix) (drop_prefix f prefix)
  unfolding clear
  clear-Below c f prefix h = elim (Bool-cases (str_eq prefix "")) [
    | inl e ↦ rw e (tt, tt)
    | inr e ↦ rw e (
      keep-IsDict outside c.entries h.0,
      All-both _ _ _ (keep outside c.entries) (λ x out same. ground (arith, out, same))
          (All-keep outside c.entries) (All-keep_of _ outside c.entries h.1),
    )
  ]
    where
      outside : String × Entry V → Bool
      outside e = not (starts_with e.0 prefix)

  run-Below :
      (c : Cache V) (f : Store V) (now : ℕ) (calls : List (Call V))
      → Below c f
      → Below (run c now calls).0 (stored f now calls)
  unfolding run stored
  run-Below c f now [] h = h
  run-Below c f now (read gap key ∷ calls) h =
      run-Below (get c (now + gap) key).1 f (now + gap) calls (get-Below c f (now + gap) key h)
  run-Below c f now (write gap key v ttl ∷ calls) h =
      run-Below (set c (now + gap) key v ttl) (put f (now + gap) key v ttl) (now + gap) calls
        (set-Below c f (now + gap) key v ttl h)
  run-Below c f now (forget keys ∷ calls) h =
      run-Below (delete c keys) (drop_keys f keys) now calls (delete-Below c f keys h)
  run-Below c f now (wipe prefix ∷ calls) h =
      run-Below (clear c prefix) (drop_prefix f prefix) now calls (clear-Below c f prefix h)

  get-answer :
      (c : Cache V) (f : Store V) (now : ℕ) (key : String) (v : V)
      → Below c f
      → (get c now key).0 ≡ some v
      → answer now (f key) ≡ some v
  unfolding get
  get-answer c f now key v h e = elim (Option-cases (Assoc.lookup key c.entries)) [
    | inl missing ↦ (let nothing = rw (get, missing) at e in cc)
    | inr (x, here) ↦
        let same = lookup-All (λ y. f y.0 ≡ some y.1) key c.entries x here h.1 in
        elim (Bool-cases (is_expired now x.expires)) [
          | inl old ↦ (let nothing = rw (get, here, old) at e in cc)
          | inr live ↦ ap (answer now) same ∙ rw live (rw (get, here, live) at e)
        ]
  ]

  -- A cache that starts empty may forget, but after any run of calls what it answers is what a store
  -- without a limit answers: the last value written under the key, if that was not deleted or cleared
  -- since, and is not expired.
  pub get-stored :
      (max_entries now wait : ℕ) (calls : List (Call V)) (key : String) (v : V)
      → (get (run (record { entries = []; max_entries = max_entries }) now calls).0 wait key).0
        ≡ some v
      → answer wait (stored (λ k. none) now calls key) ≡ some v
  get-stored max_entries now wait calls key v h =
      get-answer (run (record { entries = []; max_entries = max_entries }) now calls).0
        (stored (λ k. none) now calls) wait key v
        (run-Below (record { entries = []; max_entries = max_entries }) (λ k. none) now calls
          (tt, tt))
        h
