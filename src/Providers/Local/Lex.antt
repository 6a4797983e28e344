-- ===== src/Providers/Local/Lex.antt =====
-- The sort keys of a query, one after the other, are one order.
use crm_starter.Prelude.{
  ◌≡◌, refl, sym, ap, ◌∙◌, Bool, true, false, ◌&&◌, List, [], ◌∷◌, arith, if◌then◌else◌, Bool-cases,
  inl, inr, keep, All, All-map, All-keep,
}
use crm_starter.Prelude.Sort.{
  ties, IsWeakOrder, IsSorted, insert, insert-All, sort-All, sort-IsSorted, keep-sort, sort_tied,
}
use crm_starter.Prelude.Sort as Order_by
use crm_starter.Prelude.Merge.{sort_unique}
use crm_starter.Core.Value.{Runtime, Row}
use crm_starter.Core.Query.{Sort}
use crm_starter.Providers.Local.{row_lt, apply_sort}
use crm_starter.Providers.Local.Order.{row_lt-IsWeakOrder}

-- One order, and a second one where the first ties.
abbrev pub then_by {ℓ} : {A : Type ℓ} → (A → A → Bool) → (A → A → Bool) → A → A → Bool
then_by lt lt' a b = if lt a b then true else if lt b a then false else lt' a b

module _ {ℓ} {A : Type ℓ} (lt lt' : A → A → Bool) (w : IsWeakOrder lt) (w' : IsWeakOrder lt') where
  then_by-IsWeakOrder : IsWeakOrder (then_by lt lt')
  then_by-IsWeakOrder = record {
    asymm = λ a b h. ground (arith, w.asymm a b, w.asymm b a, w'.asymm a b, h);
    negtrans = λ a b c h k. ground (
      arith,
      w.negtrans a b c,
      w.negtrans c b a,
      w.negtrans b c a,
      w.negtrans c a b,
      w.negtrans b a c,
      w.negtrans a c b,
      w'.negtrans a b c,
      h,
      k,
    );
  }

  not_after :
      (x y : A) (ys : List A)
      → All (λ z. lt' z x ≡ false) ys
      → All (λ z. then_by lt lt' z y ≡ false) ys
      → lt y x ≡ false
      → All (λ z. then_by lt lt' z x ≡ false) ys
  not_after x y [] h s above = tt
  not_after x y (z ∷ ys) h s above =
      (ground (arith, w.negtrans z y x, h.0, s.0, above), not_after x y ys h.1 s.1 above)

  -- A sort by the first order of what is sorted by the second.
  insert-then_by :
      (x : A) (xs : List A)
      → All (λ z. lt' z x ≡ false) xs
      → IsSorted (then_by lt lt') xs
      → IsSorted (then_by lt lt') (insert lt x xs)
  unfolding insert
  insert-then_by x [] h s = (tt, tt)
  insert-then_by x (y ∷ ys) h s = elim (Bool-cases (lt y x)) [
    | inl below ↦ rw below (
      insert-All lt (λ z. then_by lt lt' z y ≡ false) x ys (ground (arith, below, w.asymm y x)) s.0,
      insert-then_by x ys h.1 s.1,
    )
    | inr above ↦ rw above ((ground (arith, above, h.0), not_after x y ys h.1 s.0 above), s)
  ]

  sort-then_by : (xs : List A) → IsSorted lt' xs → IsSorted (then_by lt lt') (Order_by.sort lt xs)
  unfolding Order_by.sort
  sort-then_by [] s = tt
  sort-then_by (x ∷ xs) s =
      insert-then_by x (Order_by.sort lt xs) (sort-All lt (λ z. lt' z x ≡ false) xs s.0)
        (sort-then_by xs s.1)

  -- Sorting by the first order keeps the order of what ties in both.
  keep-then_by :
      (r : A) (xs : List A)
      → keep (ties (then_by lt lt') r) (Order_by.sort lt xs) ≡ keep (ties (then_by lt lt') r) xs
  keep-then_by r xs =
      keep-sort lt w (ties (then_by lt lt') r) xs
      ∙ sort_tied lt w r (keep (ties (then_by lt lt') r) xs) (
          All-map _ _ (keep (ties (then_by lt lt') r) xs) (λ z t. ground (arith, t))
            (All-keep (ties (then_by lt lt') r) xs))

abbrev pub lex_lt : Runtime → List Sort → Row → Row → Bool
lex_lt rt [] = λ a b. false
lex_lt rt (spec ∷ sorts) = then_by (row_lt rt spec) (lex_lt rt sorts)

pub lex_lt-IsWeakOrder : (rt : Runtime) (sorts : List Sort) → IsWeakOrder (lex_lt rt sorts)
lex_lt-IsWeakOrder rt [] = record { asymm = λ a b h. refl; negtrans = λ a b c h k. refl }
lex_lt-IsWeakOrder rt (spec ∷ sorts) =
    then_by-IsWeakOrder (row_lt rt spec) (lex_lt rt sorts) (row_lt-IsWeakOrder rt spec)
      (lex_lt-IsWeakOrder rt sorts)

flat_IsSorted : (rows : List Row) → IsSorted (λ a b. false) rows
flat_IsSorted [] = tt
flat_IsSorted (row ∷ rows) = (go rows, flat_IsSorted rows)
  where
    go : (rs : List Row) → All (λ r. false ≡ false) rs
    go [] = tt
    go (r ∷ rs) = (refl, go rs)

apply_sort-IsSorted :
    (rt : Runtime) (rows : List Row) (sorts : List Sort)
    → IsSorted (lex_lt rt sorts) (apply_sort rt rows sorts)
unfolding apply_sort
apply_sort-IsSorted rt rows [] = flat_IsSorted rows
apply_sort-IsSorted rt rows (spec ∷ sorts) =
    sort-then_by (row_lt rt spec) (lex_lt rt sorts) (row_lt-IsWeakOrder rt spec)
      (lex_lt-IsWeakOrder rt sorts) (apply_sort rt rows sorts) (apply_sort-IsSorted rt rows sorts)

then_by-ties :
    (rt : Runtime) (spec : Sort) (sorts : List Sort) (r x : Row)
    → ties (lex_lt rt (spec ∷ sorts)) r x
      ≡ (ties (row_lt rt spec) r x && ties (lex_lt rt sorts) r x)
then_by-ties rt spec sorts r x = ground (arith, (row_lt-IsWeakOrder rt spec).asymm r x)

keep-and {ℓ} :
    {A : Type ℓ} (p p1 p2 : A → Bool) (xs : List A)
    → ((x : A) → p x ≡ (p1 x && p2 x))
    → keep p xs ≡ keep p1 (keep p2 xs)
keep-and p p1 p2 [] h = refl
keep-and p p1 p2 (x ∷ xs) h = ground (arith, h x, keep-and p p1 p2 xs h)

ties_kept :
    (rt : Runtime) (rows : List Row) (sorts : List Sort) (r : Row)
    → keep (ties (lex_lt rt sorts) r) (apply_sort rt rows sorts)
      ≡ keep (ties (lex_lt rt sorts) r) rows
unfolding apply_sort
ties_kept rt rows [] r = refl
ties_kept rt rows (spec ∷ sorts) r =
    let both = then_by-ties rt spec sorts r in
    keep-then_by (row_lt rt spec) (lex_lt rt sorts) (row_lt-IsWeakOrder rt spec)
      (lex_lt-IsWeakOrder rt sorts) r (apply_sort rt rows sorts)
    ∙ keep-and _ (ties (row_lt rt spec) r) (ties (lex_lt rt sorts) r) (apply_sort rt rows sorts)
        both
    ∙ ap (keep (ties (row_lt rt spec) r)) (ties_kept rt rows sorts r)
    ∙ sym (keep-and _ (ties (row_lt rt spec) r) (ties (lex_lt rt sorts) r) rows both)

-- The sorts of a query, one after the other, are one stable sort.
pub apply_sort-sort :
    (rt : Runtime) (rows : List Row) (sorts : List Sort)
    → apply_sort rt rows sorts ≡ Order_by.sort (lex_lt rt sorts) rows
apply_sort-sort rt rows sorts =
    sort_unique (lex_lt rt sorts) (lex_lt-IsWeakOrder rt sorts) rows (apply_sort rt rows sorts)
      (apply_sort-IsSorted rt rows sorts) (ties_kept rt rows sorts)
