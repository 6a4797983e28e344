-- ===== src/Providers/Union/Keys.antt =====
-- The rows of one source stand in the order of the union's keys, since the source column is the same
-- in all of them.
use crm_starter.Prelude.{
  ◌≡◌, ◌∙◌, refl, ap, sym, Bool, true, false, some, List, [], ◌∷◌, arith, all, Bool-cases, inl, inr,
  str_eq, map,
}
use mathlib.Core.Path.{ap₂}
use crm_starter.Prelude.Sort.{IsWeakOrder, insert}
use crm_starter.Prelude.Sort as Order_by
use crm_starter.Core.Value.{Text, text, Runtime, Row, get}
use crm_starter.Core.Query.{Sort, SortDir, asc, desc}
use crm_starter.Providers.Local.{key_lt, row_lt, apply_sort}
use crm_starter.Providers.Local.Order.{row_lt-IsWeakOrder}
use crm_starter.Providers.Local.Lex.{lex_lt, apply_sort-sort}
use crm_starter.Providers.Union.{Union, stamp, pushed}
use crm_starter.Providers.Union.Stamps.{spared, get-stamp, str_eq_sym}

module _ {ℓ κ} {A : Type ℓ} {B : Type κ} (f : A → B) (lt : A → A → Bool) (lt' : B → B → Bool)
    (h : (a b : A) → lt' (f a) (f b) ≡ lt a b) where
  map-insert : (x : A) (xs : List A) → map f (insert lt x xs) ≡ insert lt' (f x) (map f xs)
  unfolding insert
  map-insert x [] = refl
  map-insert x (y ∷ ys) = elim (Bool-cases (lt y x)) [
    | inl e ↦ rw (h y x, e) (ap (◌∷◌ (f y)) (map-insert x ys))
    | inr e ↦ rw (h y x, e) refl
  ]

  -- A sort moves past a function that keeps the order.
  map-sort : (xs : List A) → map f (Order_by.sort lt xs) ≡ Order_by.sort lt' (map f xs)
  unfolding Order_by.sort
  map-sort [] = refl
  map-sort (x ∷ xs) = map-insert x (Order_by.sort lt xs) ∙ ap (insert lt' (f x)) (map-sort xs)

lt_itself {ℓ} : {A : Type ℓ} (lt : A → A → Bool) → IsWeakOrder lt → (a : A) → lt a a ≡ false
lt_itself lt w a = elim (Bool-cases (lt a a)) [ inl e ↦ w.asymm a a e | inr e ↦ e ]

module _ (rt : Runtime) (u : Union) (l : Text) where
  row_lt-keys :
      (spec : Sort) (x y a b : Row)
      → get x spec.field ≡ get a spec.field
      → get y spec.field ≡ get b spec.field
      → row_lt rt spec x y ≡ row_lt rt spec a b
  unfolding row_lt
  row_lt-keys spec x y a b h k = go spec.dir
    where
      go :
          (d : SortDir)
          → ◌≡◌ {A = Bool}
              (elim d [
                | asc ↦ key_lt rt (get x spec.field) (get y spec.field)
                | desc ↦ key_lt rt (get y spec.field) (get x spec.field)
              ])
              (elim d [
                | asc ↦ key_lt rt (get a spec.field) (get b spec.field)
                | desc ↦ key_lt rt (get b spec.field) (get a spec.field)
              ])
      go asc = ap₂ (key_lt rt) h k
      go desc = ap₂ (key_lt rt) k h

  row_lt_tied :
      (spec : Sort) (x y : Row) → get x spec.field ≡ get y spec.field → row_lt rt spec x y ≡ false
  row_lt_tied spec x y h =
      row_lt-keys spec x y y y h refl ∙ lt_itself (row_lt rt spec) (row_lt-IsWeakOrder rt spec) y

  lex_lt-stamp :
      (sorts : List Sort)
      → all (λ s. spared u s.field) sorts ≡ true
      → (a b : Row)
      → lex_lt rt sorts (stamp rt u l a) (stamp rt u l b) ≡ lex_lt rt (pushed u sorts) a b
  lex_lt-stamp [] h a b = refl
  lex_lt-stamp (spec ∷ sorts) h a b = elim (Bool-cases (str_eq spec.field u.source_field)) [
    | inl e ↦
        let same : (x : Row) → get (stamp rt u l x) spec.field ≡ some (text l) = λ x.
          get-stamp rt u l x spec.field h₀ ∙ rw (str_eq_sym u.source_field spec.field, e) refl in
        rw
          (
            e,
            row_lt_tied spec (stamp rt u l a) (stamp rt u l b) (same a ∙ sym (same b)),
            row_lt_tied spec (stamp rt u l b) (stamp rt u l a) (same b ∙ sym (same a)),
          )
          (lex_lt-stamp sorts h₁ a b)
    | inr e ↦
        let same : (x : Row) → get (stamp rt u l x) spec.field ≡ get x spec.field = λ x.
          get-stamp rt u l x spec.field h₀ ∙ rw (str_eq_sym u.source_field spec.field, e) refl in
        rw
          (
            e,
            row_lt-keys spec (stamp rt u l a) (stamp rt u l b) a b (same a) (same b),
            row_lt-keys spec (stamp rt u l b) (stamp rt u l a) b a (same b) (same a),
            lex_lt-stamp sorts h₁ a b,
          )
          refl
  ]
    where
      h₀ : spared u spec.field ≡ true
      h₀ = ground (arith, h)

      h₁ : all (λ s. spared u s.field) sorts ≡ true
      h₁ = ground (arith, h)

  -- A source sorts its rows as the union would.
  pub map-apply_sort :
      (sorts : List Sort) (rows : List Row)
      → all (λ s. spared u s.field) sorts ≡ true
      → map (stamp rt u l) (apply_sort rt rows (pushed u sorts))
        ≡ Order_by.sort (lex_lt rt sorts) (map (stamp rt u l) rows)
  map-apply_sort sorts rows h =
      ap (map (stamp rt u l)) (apply_sort-sort rt rows (pushed u sorts))
      ∙ map-sort (stamp rt u l) (lex_lt rt (pushed u sorts)) (lex_lt rt sorts)
          (lex_lt-stamp sorts h) rows
