-- ===== src/Prelude/Tables.antt =====
-- Lists in pieces: slices, pieces put together, and what functions and tests do to them.
use Prim.Native.Nat.{ℕ, zero, suc, ◌+◌}
use mathlib.Core.Path.{◌≡◌, refl, ap, sym, ◌∙◌}
use mathlib.Core.Bool.{Bool, false}
use mathlib.Core.List.{List, [], ◌∷◌, ◌++◌, map}
use mathlib.Core.Logic.{inl, inr}
use native.Mathlib.Omega.{arith}
use crm_starter.Prelude.Tests.{Bool-cases}
use crm_starter.Prelude.Lists.{length, take, drop, slice, keep, All, take-nil, suc-add, keep-append}
use crm_starter.Prelude.Sort.{insert}
use crm_starter.Prelude.Sort as Order_by
use crm_starter.Prelude.Merge.{concat}

module _ {ℓ} {A : Type ℓ} where
  pub slice-take : (a n : ℕ) (xs : List A) → slice a n xs ≡ drop a (take (a + n) xs)
  slice-take zero n xs = ap (λ k. take k xs) (omega arith)
  slice-take (suc a) n [] = take-nil n ∙ sym (ap (drop (suc a)) (take-nil (suc a + n)))
  slice-take (suc a) n (x ∷ xs) =
      slice-take a n xs ∙ ap (λ k. drop (suc a) (take k (x ∷ xs))) (sym (suc-add a n))

  pub keep-concat :
      (p : A → Bool) (xss : List (List A)) → keep p (concat xss) ≡ concat (map (keep p) xss)
  keep-concat p [] = refl
  keep-concat p (xs ∷ xss) =
      keep-append p xs (concat xss) ∙ ap (◌++◌ (keep p xs)) (keep-concat p xss)

  length-insert :
      (lt : A → A → Bool) (x : A) (xs : List A) → length (insert lt x xs) ≡ suc (length xs)
  unfolding insert
  length-insert lt x [] = refl
  length-insert lt x (y ∷ ys) = ground (arith, length-insert lt x ys)

  pub length-sort : (lt : A → A → Bool) (xs : List A) → length (Order_by.sort lt xs) ≡ length xs
  unfolding Order_by.sort
  length-sort lt [] = refl
  length-sort lt (x ∷ xs) = length-insert lt x (Order_by.sort lt xs) ∙ ap suc (length-sort lt xs)

  pub slice-nil : (a n : ℕ) → slice {A = A} a n [] ≡ []
  slice-nil zero n = take-nil n
  slice-nil (suc a) n = take-nil n

module _ {ℓ κ} {A : Type ℓ} {B : Type κ} where
  pub map-take : (f : A → B) (n : ℕ) (xs : List A) → map f (take n xs) ≡ take n (map f xs)
  map-take f zero xs = refl
  map-take f (suc n) [] = refl
  map-take f (suc n) (x ∷ xs) = ap (◌∷◌ (f x)) (map-take f n xs)

  pub length-map : (f : A → B) (xs : List A) → length (map f xs) ≡ length xs
  length-map f [] = refl
  length-map f (x ∷ xs) = ap suc (length-map f xs)

  pub keep-map :
      (f : A → B) (p : B → Bool) (p' : A → Bool) (xs : List A)
      → ((x : A) → p (f x) ≡ p' x)
      → keep p (map f xs) ≡ map f (keep p' xs)
  keep-map f p p' [] h = refl
  keep-map f p p' (x ∷ xs) h = ground (arith, h x, keep-map f p p' xs h)

  -- Items that contribute nothing can be left out.
  pub concat-keep :
      (f : A → List B) (p : A → Bool) (xs : List A)
      → All (λ x. p x ≡ false → f x ≡ []) xs
      → concat (map f xs) ≡ concat (map f (keep p xs))
  concat-keep f p [] h = refl
  concat-keep f p (x ∷ xs) h = elim (Bool-cases (p x)) [
    | inl e ↦ rw e (ap (◌++◌ (f x)) (concat-keep f p xs h.1))
    | inr e ↦ rw (e, h.0 e) (concat-keep f p xs h.1)
  ]

  pub map-map {μ} :
      {C : Type μ} (f : A → B) (g : B → C) (xs : List A) → map g (map f xs) ≡ map (λ x. g (f x)) xs
  map-map f g [] = refl
  map-map f g (x ∷ xs) = ap (◌∷◌ (g (f x))) (map-map f g xs)

pub keep-false {ℓ} : {A : Type ℓ} (xs : List A) → keep (λ x. false) xs ≡ []
keep-false [] = refl
keep-false (x ∷ xs) = keep-false xs
