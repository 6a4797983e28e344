-- ===== src/Prelude/Merge.antt =====
-- A stable sort is determined by its order and its ties; and the first rows of a merge come from the
-- first rows of what is merged.
use mathlib.Core.Path.{◌≡◌, refl, sym, ap, ◌∙◌}
use mathlib.Core.Logic.{inl, inr}
use mathlib.Core.Bool.{Bool, true, false}
use mathlib.Core.List.{List, [], ◌∷◌, ◌++◌, map}
use Prim.Native.Nat.{ℕ, zero, suc, ◌≤◌}
use native.Mathlib.Omega.{arith}
use crm_starter.Prelude.Tests.{Bool-cases}
use crm_starter.Prelude.Lists.{All, All-map, keep, keep-append, take, All-take, All-keep_of}
use crm_starter.Prelude.Sort.{
  insert, sort, ties, IsSorted, IsWeakOrder, insert-All, insert-front, sort-IsSorted,
  keep-ties-sort,
}

abbrev pub concat {ℓ} : {A : Type ℓ} → List (List A) → List A
concat [] = []
concat (xs ∷ xss) = xs ++ concat xss

module _ {ℓ} {A : Type ℓ} where
  cons-head : {x y : A} {xs ys : List A} → (x ∷ xs) ≡ (y ∷ ys) → x ≡ y
  cons-head h = cc

  cons-tail : {x y : A} {xs ys : List A} → (x ∷ xs) ≡ (y ∷ ys) → xs ≡ ys
  cons-tail h = cc

  carry_All {κ} : (P : A → Type κ) {xs ys : List A} → xs ≡ ys → All P xs → All P ys
  carry_All P e h = rw (sym e) h

  take_fewer : (k n : ℕ) (xs ys : List A) → k ≤ n → take n xs ≡ take n ys → take k xs ≡ take k ys
  take_fewer zero n xs ys l h = refl
  take_fewer (suc k) zero xs ys l h = absurd (omega (arith, l))
  take_fewer (suc k) (suc n) [] [] l h = refl
  take_fewer (suc k) (suc n) [] (y ∷ ys) l h = cc
  take_fewer (suc k) (suc n) (x ∷ xs) [] l h = cc
  take_fewer (suc k) (suc n) (x ∷ xs) (y ∷ ys) l h =
      let rest = take_fewer k n xs ys (omega (arith, l)) (cons-tail h) in
      let same = cons-head h in cc

module _ {ℓ} {A : Type ℓ} (lt : A → A → Bool) where
  -- Insert the items of a list, from the last to the first.
  unfoldable pub insert_all : List A → List A → List A
  insert_all [] l = l
  insert_all (x ∷ xs) l = insert lt x (insert_all xs l)

  sort-append : (xs ys : List A) → sort lt (xs ++ ys) ≡ insert_all xs (sort lt ys)
  unfolding sort insert_all
  sort-append [] ys = refl
  sort-append (x ∷ xs) ys = ap (insert lt x) (sort-append xs ys)

  take-insert :
      (n : ℕ) (x : A) (xs ys : List A)
      → take n xs ≡ take n ys
      → take n (insert lt x xs) ≡ take n (insert lt x ys)
  unfolding insert
  take-insert zero x xs ys h = refl
  take-insert (suc n) x [] [] h = refl
  take-insert (suc n) x [] (y ∷ ys) h = cc
  take-insert (suc n) x (z ∷ xs) [] h = cc
  take-insert (suc n) x (z ∷ xs) (y ∷ ys) h =
      let same : z ≡ y = cons-head h in
      let rest = take-insert n x xs ys (cons-tail h) in
      let fewer : take n (z ∷ xs) ≡ take n (y ∷ ys) =
        take_fewer n (suc n) (z ∷ xs) (y ∷ ys) (omega arith) h in
      elim (Bool-cases (lt z x)) [
        | inl below ↦
            let below' : lt y x ≡ true = sym (ap (λ v. lt v x) same) ∙ below in
            rw (below, below') (ap (λ v. v ∷ take n (insert lt x xs)) same ∙ ap (λ l. y ∷ l) rest)
        | inr above ↦
            let above' : lt y x ≡ false = sym (ap (λ v. lt v x) same) ∙ above in
            rw (above, above') (ap (λ l. x ∷ l) fewer)
      ]

  take-insert_all :
      (n : ℕ) (xs l l' : List A)
      → take n l ≡ take n l'
      → take n (insert_all xs l) ≡ take n (insert_all xs l')
  unfolding insert_all
  take-insert_all n [] l l' h = h
  take-insert_all n (x ∷ xs) l l' h =
      take-insert n x (insert_all xs l) (insert_all xs l') (take-insert_all n xs l l' h)

  insert_all-All {κ} :
      (P : A → Type κ) (xs l : List A) → All P xs → All P l → All P (insert_all xs l)
  unfolding insert_all
  insert_all-All P [] l h k = k
  insert_all-All P (x ∷ xs) l h k =
      insert-All lt P x (insert_all xs l) h.0 (insert_all-All P xs l h.1 k)

  -- An item that is below all that is inserted stays in front.
  insert_all-cons :
      (b : A) (xs l : List A)
      → All (λ x. lt b x ≡ true) xs
      → insert_all xs (b ∷ l) ≡ b ∷ insert_all xs l
  unfolding insert_all insert
  insert_all-cons b [] l h = refl
  insert_all-cons b (x ∷ xs) l h = ap (insert lt x) (insert_all-cons b xs l h.1) ∙ rw h.0 refl

module _ {ℓ} {A : Type ℓ} (lt : A → A → Bool) (w : IsWeakOrder lt) where
  -- What is below an item is below all that is not below that item.
  below_rest :
      (b y : A) (ys : List A)
      → lt b y ≡ true
      → All (λ z. lt z y ≡ false) ys
      → All (λ z. lt b z ≡ true) ys
  below_rest b y ys h = All-map _ _ ys (λ z above. elim (Bool-cases (lt b z)) [
    | inl below ↦ below
    | inr apart ↦ (let no = w.negtrans b z y apart above in cc)
  ])

  insert_all-front :
      (y : A) (ys l : List A)
      → All (λ z. lt z y ≡ false) ys
      → All (λ z. lt z y ≡ false) l
      → insert_all lt (y ∷ ys) l ≡ y ∷ insert_all lt ys l
  unfolding insert_all
  insert_all-front y ys l h k =
      insert-front lt w y (insert_all lt ys l) (insert_all-All lt (λ z. lt z y ≡ false) ys l h k)

  merge_front :
      (n m : ℕ) (y : A) (ys l : List A)
      → IsSorted lt (y ∷ ys)
      → All (λ z. lt z y ≡ false) l
      → take n (insert_all lt (take m ys) l) ≡ take n (insert_all lt ys l)
      → take (suc n) (insert_all lt (y ∷ take m ys) l) ≡ take (suc n) (insert_all lt (y ∷ ys) l)
  merge_front n m y ys l sy above h =
      ap (take (suc n)) (insert_all-front y (take m ys) l (All-take _ m ys sy.0) above)
      ∙ ap (λ k. y ∷ k) h
      ∙ sym (ap (take (suc n)) (insert_all-front y ys l sy.0 above))

  -- Of what is merged into a sorted list, the first `m` items are enough for the first `n` of the merge.
  take-insert_all-take :
      (n m : ℕ) (ys l : List A)
      → n ≤ m
      → IsSorted lt ys
      → IsSorted lt l
      → take n (insert_all lt (take m ys) l) ≡ take n (insert_all lt ys l)
  unfolding insert_all
  take-insert_all-take zero m ys l h sy sl = refl
  take-insert_all-take (suc n) zero ys l h sy sl = absurd (omega (arith, h))
  take-insert_all-take (suc n) (suc m) [] l h sy sl = refl
  take-insert_all-take (suc n) (suc m) (y ∷ ys) [] h sy sl =
      merge_front n m y ys [] sy tt (take-insert_all-take n m ys [] (omega (arith, h)) sy.1 sl)
  take-insert_all-take (suc n) (suc m) (y ∷ ys) (b ∷ l) h sy sl = elim (Bool-cases (lt b y)) [
    | inl below ↦
        let all_below = below_rest b y ys below sy.0 in
        let all_below' = below_rest b y (take m ys) below (All-take _ m ys sy.0) in
        ap (take (suc n)) (insert_all-cons lt b (y ∷ take m ys) l (below, all_below'))
        ∙ ap (λ k. b ∷ k) (take-insert_all-take n (suc m) (y ∷ ys) l (omega (arith, h)) sy sl.1)
        ∙ sym (ap (take (suc n)) (insert_all-cons lt b (y ∷ ys) l (below, all_below)))
    | inr above ↦
        merge_front n m y ys (b ∷ l) sy
          (above, All-map _ _ l (λ z q. w.negtrans z b y q above) sl.0)
          (take-insert_all-take n m ys (b ∷ l) (omega (arith, h)) sy.1 sl)
  ]

  irrefl : (x : A) → lt x x ≡ false
  irrefl x = elim (Bool-cases (lt x x)) [ inl below ↦ w.asymm x x below | inr apart ↦ apart ]

  keep-ties_self : (x : A) (xs : List A) → keep (ties lt x) (x ∷ xs) ≡ x ∷ keep (ties lt x) xs
  keep-ties_self x xs = rw (irrefl x) refl

  keep-ties_tied :
      (x y : A) (ys : List A)
      → lt x y ≡ false
      → lt y x ≡ false
      → keep (ties lt x) (y ∷ ys) ≡ y ∷ keep (ties lt x) ys
  keep-ties_tied x y ys h k = rw (h, k) refl

  -- An item that ties with one of a sorted list is not below its first.
  not_below_first :
      (x : A) (xs : List A) (y : A) (ys : List A)
      → IsSorted lt (y ∷ ys)
      → keep (ties lt x) (x ∷ xs) ≡ keep (ties lt x) (y ∷ ys)
      → lt x y ≡ false
  not_below_first x xs y ys sy h =
      let all_kept : All (λ z. lt z y ≡ false) (keep (ties lt x) (y ∷ ys)) =
        All-keep_of _ (ties lt x) (y ∷ ys) (irrefl y, sy.0) in
      let from : All (λ z. lt z y ≡ false) (x ∷ keep (ties lt x) xs) =
        carry_All (λ z. lt z y ≡ false) (sym h ∙ keep-ties_self x xs) all_kept in
      from.0

  keep-tail :
      (p : A → Bool) (x : A) (xs ys : List A)
      → keep p (x ∷ xs) ≡ keep p (x ∷ ys)
      → keep p xs ≡ keep p ys
  keep-tail p x xs ys h = elim (Bool-cases (p x)) [
    | inl kept ↦ (let both : x ∷ keep p xs ≡ x ∷ keep p ys = rw kept at h in cons-tail both)
    | inr dropped ↦ rw dropped at h
  ]

  -- Where the items that tie with each `r` are the same and in the same order, so are two sorted lists.
  sorted_unique :
      (xs ys : List A)
      → IsSorted lt xs
      → IsSorted lt ys
      → ((r : A) → keep (ties lt r) xs ≡ keep (ties lt r) ys)
      → xs ≡ ys
  sorted_unique [] [] sx sy h = refl
  sorted_unique [] (y ∷ ys) sx sy h = (let none_kept = h y ∙ keep-ties_self y ys in cc)
  sorted_unique (x ∷ xs) [] sx sy h = (let none_kept = sym (h x) ∙ keep-ties_self x xs in cc)
  sorted_unique (x ∷ xs) (y ∷ ys) sx sy h =
      let below_y : lt x y ≡ false = not_below_first x xs y ys sy (h x) in
      let below_x : lt y x ≡ false = not_below_first y ys x xs sx (sym (h y)) in
      let same : x ≡ y =
        cons-head (sym (keep-ties_self x xs) ∙ h x ∙ keep-ties_tied x y ys below_y below_x) in
      ap (λ k. x ∷ k)
        (sorted_unique xs ys sx.1 sy.1 (λ r.
          keep-tail (ties lt r) x xs ys (h r ∙ ap (λ z. keep (ties lt r) (z ∷ ys)) (sym same))))
      ∙ ap (λ z. z ∷ ys) same

  -- A sorted list with the ties of `xs` is `xs` sorted.
  pub sort_unique :
      (xs ys : List A)
      → IsSorted lt ys
      → ((r : A) → keep (ties lt r) ys ≡ keep (ties lt r) xs)
      → ys ≡ sort lt xs
  sort_unique xs ys s h =
      sorted_unique ys (sort lt xs) s (sort-IsSorted lt w xs)
        (λ r. h r ∙ sym (keep-ties-sort lt w r xs))

  sort-IsSorted_append : (xs ys : List A) → sort lt (sort lt xs ++ ys) ≡ sort lt (xs ++ ys)
  sort-IsSorted_append xs ys =
      sort_unique (xs ++ ys) (sort lt (sort lt xs ++ ys)) (sort-IsSorted lt w (sort lt xs ++ ys))
        (λ r.
          keep-ties-sort lt w r (sort lt xs ++ ys)
          ∙ keep-append (ties lt r) (sort lt xs) ys
          ∙ ap (λ k. k ++ keep (ties lt r) ys) (keep-ties-sort lt w r xs)
          ∙ sym (keep-append (ties lt r) xs ys))

  -- The first `n` items of all lists together, sorted, are found among the first `n` of each sorted.
  pub take-merge :
      (n : ℕ) (xss : List (List A))
      → take n (sort lt (concat (map (λ xs. take n (sort lt xs)) xss)))
        ≡ take n (sort lt (concat xss))
  take-merge n [] = refl
  take-merge n (xs ∷ xss) =
      let cut = concat (map (λ zs. take n (sort lt zs)) xss) in
      ap (take n) (sort-append lt (take n (sort lt xs)) cut)
      ∙ take-insert_all lt n (take n (sort lt xs)) (sort lt cut) (sort lt (concat xss))
          (take-merge n xss)
      ∙ take-insert_all-take n n (sort lt xs) (sort lt (concat xss)) (omega arith)
          (sort-IsSorted lt w xs) (sort-IsSorted lt w (concat xss))
      ∙ sym (ap (take n) (sort-append lt (sort lt xs) (concat xss)))
      ∙ ap (take n) (sort-IsSorted_append xs (concat xss))
