-- ===== src/Prelude/Sort.antt =====
-- A stable sort by a Boolean order, as `list.sort` is one.
use mathlib.Core.Path.{◌≡◌, refl, sym, ap, ◌∙◌}
use mathlib.Core.Logic.{inl, inr}
use mathlib.Core.Bool.{Bool, true, false, not, ◌&&◌}
use mathlib.Core.List.Perm
use mathlib.Core.List.{List, [], ◌∷◌, Perm}
use native.Mathlib.Omega.{arith}
use crm_starter.Prelude.Tests.{if◌then◌else◌, Bool-cases}
use crm_starter.Prelude.Lists.{All, All-map, All-keep, All-keep_of, keep}

module _ {ℓ} {A : Type ℓ} (lt : A → A → Bool) where
  -- `x` goes before the first item that is not below it, so equal items keep their order.
  unfoldable pub insert : A → List A → List A
  insert x [] = x ∷ []
  insert x (y ∷ ys) = let rest = insert x ys in if lt y x then y ∷ rest else x ∷ y ∷ ys

  unfoldable pub sort : List A → List A
  unfolding insert
  sort [] = []
  sort (x ∷ xs) = insert x (sort xs)

  -- Neither is below the other.
  abbrev pub ties : A → A → Bool
  ties r x = not (lt r x) && not (lt x r)

  -- No item is below one that stands before it.
  abbrev pub IsSorted : List A → Type 0
  IsSorted [] = Unit
  IsSorted (x ∷ xs) = All (λ y. lt y x ≡ false) xs × IsSorted xs

module _ {ℓ} {A : Type ℓ} (lt : A → A → Bool) where
  pub insert-perm : (x : A) (xs : List A) → Perm (insert lt x xs) (x ∷ xs)
  unfolding insert
  insert-perm x [] = Perm.rfl
  insert-perm x (y ∷ ys) = elim (Bool-cases (lt y x)) [
    | inl h ↦ rw h (Perm.trans (Perm.cons y (insert-perm x ys)) (Perm.swap x y ys))
    | inr h ↦ rw h Perm.rfl
  ]

  pub sort-perm : (xs : List A) → Perm (sort lt xs) xs
  unfolding sort
  sort-perm [] = Perm.rfl
  sort-perm (x ∷ xs) = Perm.trans (insert-perm x (sort lt xs)) (Perm.cons x (sort-perm xs))

  pub insert-All {κ} :
      (P : A → Type κ) (x : A) (xs : List A) → P x → All P xs → All P (insert lt x xs)
  unfolding insert
  insert-All P x [] p h = (p, tt)
  insert-All P x (y ∷ ys) p h = elim (Bool-cases (lt y x)) [
    | inl e ↦ rw e (h.0, insert-All P x ys p h.1)
    | inr e ↦ rw e (p, h)
  ]

  pub sort-All {κ} : (P : A → Type κ) (xs : List A) → All P xs → All P (sort lt xs)
  unfolding sort
  sort-All P [] h = tt
  sort-All P (x ∷ xs) h = insert-All P x (sort lt xs) h.0 (sort-All P xs h.1)

-- A strict order whose negation is transitive, so that incomparable items are alike.
pub record IsWeakOrder {ℓ} {A : Type ℓ} (lt : A → A → Bool) : Type ℓ where
  pub asymm : (a b : A) → lt a b ≡ true → lt b a ≡ false
  pub negtrans : (a b c : A) → lt a b ≡ false → lt b c ≡ false → lt a c ≡ false

module _ {ℓ} {A : Type ℓ} (lt : A → A → Bool) (w : IsWeakOrder lt) where
  pub insert-IsSorted : (x : A) (xs : List A) → IsSorted lt xs → IsSorted lt (insert lt x xs)
  unfolding insert
  insert-IsSorted x [] h = (tt, tt)
  insert-IsSorted x (y ∷ ys) h = elim (Bool-cases (lt y x)) [
    | inl e ↦
        rw e
          (insert-All lt (λ z. lt z y ≡ false) x ys (w.asymm y x e) h.0, insert-IsSorted x ys h.1)
    | inr e ↦ rw e ((e, All-map _ _ ys (λ z l. w.negtrans z y x l e) h.0), h)
  ]

  pub sort-IsSorted : (xs : List A) → IsSorted lt (sort lt xs)
  unfolding sort
  sort-IsSorted [] = tt
  sort-IsSorted (x ∷ xs) = insert-IsSorted x (sort lt xs) (sort-IsSorted xs)

  -- An item that is above nothing stands first.
  pub insert-front : (x : A) (xs : List A) → All (λ z. lt z x ≡ false) xs → insert lt x xs ≡ x ∷ xs
  unfolding insert
  insert-front x [] h = refl
  insert-front x (y ∷ ys) h = rw h.0 refl

  keep-insert :
      (p : A → Bool) (x : A) (xs : List A)
      → IsSorted lt xs
      → keep p (insert lt x xs) ≡ (if p x then insert lt x (keep p xs) else keep p xs)
  unfolding insert
  keep-insert p x [] h = refl
  keep-insert p x (y ∷ ys) h = elim (Bool-cases (lt y x)) [
    | inl e ↦ rw e (ground (arith, e, keep-insert p x ys h.1))
    | inr e ↦ rw e (
        ap (λ l. if p x then l else keep p (y ∷ ys))
          (sym (
            insert-front x (keep p (y ∷ ys))
              (All-keep_of _ p (y ∷ ys) (e, All-map _ _ ys (λ z l. w.negtrans z y x l e) h.0)))))
  ]

  -- To drop rows and then sort is to sort and then drop them.
  pub keep-sort : (p : A → Bool) (xs : List A) → keep p (sort lt xs) ≡ sort lt (keep p xs)
  unfolding sort
  keep-sort p [] = refl
  keep-sort p (x ∷ xs) =
      keep-insert p x (sort lt xs) (sort-IsSorted xs) ∙ ground (arith, keep-sort p xs)

  pub sort_tied : (r : A) (xs : List A) → All (λ x. ties lt r x ≡ true) xs → sort lt xs ≡ xs
  unfolding sort
  sort_tied r [] h = refl
  sort_tied r (x ∷ xs) h =
      ap (insert lt x) (sort_tied r xs h.1)
      ∙ insert-front x xs
          (All-map _ _ xs (λ z t. w.negtrans z r x (below z t).1 (below x h.0).0) h.1)
    where
      below : (z : A) → ties lt r z ≡ true → (lt r z ≡ false) × (lt z r ≡ false)
      below z t = ground arith

  -- The sort is stable: the items that tie with `r` keep their order.
  pub keep-ties-sort : (r : A) (xs : List A) → keep (ties lt r) (sort lt xs) ≡ keep (ties lt r) xs
  keep-ties-sort r xs =
      keep-sort (ties lt r) xs ∙ sort_tied r (keep (ties lt r) xs) (All-keep (ties lt r) xs)
