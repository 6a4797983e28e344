-- ===== src/Prelude/Assoc.antt =====
-- Python's `dict` with text keys, as an association list in insertion order.
use mathlib.Core.Path.{◌≡◌, refl, ap, subst}
use mathlib.Core.Logic.{inl, inr}
use mathlib.Core.Option.{Option, none, some}
use mathlib.Core.List.{List, [], ◌∷◌}
use Prim.Native.String.{String}
use native.Mathlib.Omega.{arith}
use text.Mathlib.TextEquality.{eq_iff}
use mathlib.Core.Bool.{Bool, false, not}
use Prim.Native.Nat.{suc, ◌≤◌}
use crm_starter.Prelude.Tests.{str_eq, if◌then◌else◌, Bool-cases}
use crm_starter.Prelude.Lists.{keep, length, length-keep, All, All-keep_of}

abbrev pub Dict {ℓ} : Type ℓ → Type ℓ
Dict V = List (String × V)

pub some-inj {ℓ} : {A : Type ℓ} {a b : A} → some a ≡ some b → a ≡ b
some-inj h = cc

module _ {ℓ} {V : Type ℓ} where
  -- `d.get(key)`.
  unfoldable pub lookup : String → Dict V → Option V
  lookup key [] = none
  lookup key ((name, value) ∷ rest) =
      let later = lookup key rest in if str_eq name key then some value else later

  -- `d[key] = new`: a key that is there keeps its place.
  unfoldable pub insert : String → V → Dict V → Dict V
  insert key new [] = (key, new) ∷ []
  insert key new ((name, value) ∷ rest) =
      let later = insert key new rest in
      if str_eq name key then (key, new) ∷ rest else (name, value) ∷ later

  -- `d.pop(key, None)`.
  unfoldable pub pop : String → Dict V → Dict V
  pop key d = keep (λ e. not (str_eq e.0 key)) d

  unfoldable pub pop_all : List String → Dict V → Dict V
  pop_all [] d = d
  pop_all (key ∷ keys) d = pop_all keys (pop key d)

  pub lookup-insert :
      (key other : String) (new : V) (d : Dict V)
      → lookup other (insert key new d) ≡ (if str_eq key other then some new else lookup other d)
  unfolding lookup insert
  lookup-insert key other new [] = refl
  lookup-insert key other new ((name, value) ∷ rest) = ground (
    arith,
    lookup-insert key other new rest,
    eq_iff name key,
    eq_iff name other,
    eq_iff key other,
  )

  pub length-insert :
      (key : String) (new : V) (d : Dict V) → length (insert key new d) ≤ suc (length d)
  unfolding insert
  length-insert key new [] = omega arith
  length-insert key new ((name, value) ∷ rest) = ground (arith, length-insert key new rest)

  -- A key that is there gets no second place.
  pub length-insert_again :
      (key : String) (new old : V) (d : Dict V)
      → lookup key d ≡ some old
      → length (insert key new d) ≡ length d
  unfolding lookup insert
  length-insert_again key new old [] h = cc
  length-insert_again key new old ((name, value) ∷ rest) h = elim (Bool-cases (str_eq name key)) [
    | inl e ↦ rw e refl
    | inr e ↦ rw e (ap suc (length-insert_again key new old rest (rw e at h)))
  ]

  pub insert-All {κ} :
      (P : String × V → Type κ) (key : String) (new : V) (d : Dict V)
      → P (key, new)
      → All P d
      → All P (insert key new d)
  unfolding insert
  insert-All P key new [] p h = (p, tt)
  insert-All P key new ((name, value) ∷ rest) p h = elim (Bool-cases (str_eq name key)) [
    | inl e ↦ rw e (p, h.1)
    | inr e ↦ rw e (h.0, insert-All P key new rest p h.1)
  ]

  pub pop_all-All {κ} :
      (P : String × V → Type κ) (keys : List String) (d : Dict V) → All P d → All P (pop_all keys d)
  unfolding pop_all pop
  pop_all-All P [] d h = h
  pop_all-All P (key ∷ keys) d h =
      pop_all-All P keys (pop key d) (All-keep_of P (λ e. not (str_eq e.0 key)) d h)

  pub lookup-All {κ} :
      (P : String × V → Type κ) (key : String) (d : Dict V) (v : V)
      → lookup key d ≡ some v
      → All P d
      → P (key, v)
  unfolding lookup
  lookup-All P key [] v e h = cc
  lookup-All P key ((name, value) ∷ rest) v e h = elim (Bool-cases (str_eq name key)) [
    | inl s ↦
        subst (λ x. P (x, v)) ((eq_iff name key).0 s)
          (subst (λ x. P (name, x)) (some-inj (rw s at e)) h.0)
    | inr s ↦ lookup-All P key rest v (rw s at e) h.1
  ]

  -- No key stands twice.
  abbrev pub IsDict : Dict V → Type 0
  IsDict [] = Unit
  IsDict ((name, value) ∷ rest) = All (λ e. str_eq name e.0 ≡ false) rest × IsDict rest

  pub keep-IsDict : (p : String × V → Bool) (d : Dict V) → IsDict d → IsDict (keep p d)
  keep-IsDict p [] h = tt
  keep-IsDict p ((name, value) ∷ rest) h = elim (Bool-cases (p (name, value))) [
    | inl e ↦ rw e (All-keep_of _ p rest h.0, keep-IsDict p rest h.1)
    | inr e ↦ rw e (keep-IsDict p rest h.1)
  ]

  pub pop_all-IsDict : (keys : List String) (d : Dict V) → IsDict d → IsDict (pop_all keys d)
  unfolding pop_all pop
  pop_all-IsDict [] d h = h
  pop_all-IsDict (key ∷ keys) d h =
      pop_all-IsDict keys (pop key d) (keep-IsDict (λ e. not (str_eq e.0 key)) d h)

  pub insert-IsDict : (key : String) (new : V) (d : Dict V) → IsDict d → IsDict (insert key new d)
  unfolding insert
  insert-IsDict key new [] h = (tt, tt)
  insert-IsDict key new ((name, value) ∷ rest) h = elim (Bool-cases (str_eq name key)) [
    | inl e ↦
        rw e (subst (λ x. All (λ y. str_eq x y.0 ≡ false) rest) ((eq_iff name key).0 e) h.0, h.1)
    | inr e ↦ rw e (
      insert-All (λ y. str_eq name y.0 ≡ false) key new rest e h.0,
      insert-IsDict key new rest h.1,
    )
  ]

  -- What holds of the new entry and of those under other keys.
  pub insert-All_other {κ} :
      (P : String × V → Type κ) (key : String) (new : V) (d : Dict V)
      → IsDict d
      → P (key, new)
      → All (λ e. str_eq key e.0 ≡ false → P e) d
      → All P (insert key new d)
  unfolding insert
  insert-All_other P key new [] u p h = (p, tt)
  insert-All_other P key new ((name, value) ∷ rest) u p h = elim (Bool-cases (str_eq name key)) [
    | inl e ↦ rw e (
      p,
      apply_All rest (subst (λ x. All (λ y. str_eq x y.0 ≡ false) rest) ((eq_iff name key).0 e) u.0)
          h.1,
    )
    | inr e ↦ rw e (
      h.0 (ground (arith, e, eq_iff name key, eq_iff key name)),
      insert-All_other P key new rest u.1 p h.1,
    )
  ]
    where
      apply_All :
          (xs : Dict V)
          → All (λ y. str_eq key y.0 ≡ false) xs
          → All (λ e. str_eq key e.0 ≡ false → P e) xs
          → All P xs
      apply_All [] a b = tt
      apply_All (x ∷ xs) a b = (b.0 a.0, apply_All xs a.1 b.1)

  pub length-pop_all : (keys : List String) (d : Dict V) → length (pop_all keys d) ≤ length d
  unfolding pop_all pop
  length-pop_all [] d = omega arith
  length-pop_all (key ∷ keys) d =
      omega (arith, length-pop_all keys (pop key d), length-keep (λ e. not (str_eq e.0 key)) d)
