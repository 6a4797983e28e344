-- ===== src/Auth/Passwords/Repeated.antt =====
-- A short unit that fills a password is found by the rules.
use crm_starter.Prelude.{
  ℕ, zero, suc, ◌+◌, ◌*◌, ◌/◌, ◌≤◌, ◌<◌, ◌≡◌, refl, ap, ◌∙◌, Bool, true, false, List, [], ◌∷◌, ◌++◌,
  length, take, leb, arith, length-append, length-take, ltb, if◌then◌else◌, not, ◌&&◌, ◌||◌,
}
use mathlib.Core.List.{append_assoc}
use crm_starter.Core.Value.{Text}
use crm_starter.Core.Value.Equality.{text_eq_refl}
use crm_starter.Auth.Passwords.{repeat, repeats, any_unit, is_repetitive, distinct, is_empty}

length-repeat : (k : ℕ) (u : Text) → length (repeat k u) ≡ k * length u
unfolding repeat
length-repeat zero u = omega arith
length-repeat (suc k) u = length-append u (repeat k u) ∙ grind (arith, length-repeat k u)

take-append_exact : (n : ℕ) (s t : Text) → length s ≡ n → take n (s ++ t) ≡ s
take-append_exact zero [] t h = refl
take-append_exact zero (c ∷ s) t h = absurd (omega (arith, h))
take-append_exact (suc n) [] t h = absurd (omega (arith, h))
take-append_exact (suc n) (c ∷ s) t h = ap (◌∷◌ c) (take-append_exact n s t (omega (arith, h)))

quotient : (n k t : ℕ) → 0 < n → n ≤ 4 → t < n → (k * n + t) / n ≡ k
quotient zero k t h l lt = absurd (omega arith)
quotient (suc zero) k t h l lt = omega arith
quotient (suc (suc zero)) k t h l lt = omega arith
quotient (suc (suc (suc zero))) k t h l lt = omega arith
quotient (suc (suc (suc (suc zero)))) k t h l lt = omega arith
quotient (suc (suc (suc (suc (suc n))))) k t h l lt = absurd (omega arith)

module _ (k : ℕ) (u tail : Text) (some_unit : 0 < length u) (short : length u ≤ 4)
    (rest : length tail < length u) where
  times-repeat : length (repeat (suc k) u ++ tail) / length u ≡ suc k
  times-repeat =
      ap (λ m. m / length u)
        (length-append (repeat (suc k) u) tail
          ∙ ap (λ m. m + length tail) (length-repeat (suc k) u))
      ∙ quotient (length u) (suc k) (length tail) some_unit short rest

  unit-repeat : take (length u) (repeat (suc k) u ++ tail) ≡ u
  unfolding repeat
  unit-repeat =
      ap (take (length u)) (append_assoc u (repeat k u) tail)
      ∙ take-append_exact (length u) u (repeat k u ++ tail) refl

  repeats-repeat : 3 ≤ suc k → repeats (length u) (repeat (suc k) u ++ tail) ≡ true
  unfolding repeats
  repeats-repeat three = rw times-repeat (
      rw unit-repeat (
        rw (take-append_exact (suc k * length u) (repeat (suc k) u) tail (length-repeat (suc k) u))
          (rw (text_eq_refl (repeat (suc k) u)) (ground (arith, three)))))

fits : (size : ℕ) (p : Text) → size ≤ length p → ltb (length (take size p)) size ≡ false
fits size p h = rw (length-take size p) (ground (arith, h))

any_unit-here :
    (size : ℕ) (sizes : List ℕ) (p : Text)
    → size ≤ length p
    → repeats size p ≡ true
    → any_unit (size ∷ sizes) p ≡ true
unfolding any_unit
any_unit-here size sizes p h found = rw (fits size p h) (rw found refl)

any_unit-later :
    (size : ℕ) (sizes : List ℕ) (p : Text)
    → size ≤ length p
    → any_unit sizes p ≡ true
    → any_unit (size ∷ sizes) p ≡ true
unfolding any_unit
any_unit-later size sizes p h found = rw (fits size p h) (if_either (repeats size p) found)
  where
    if_either : (b : Bool) {c : Bool} → c ≡ true → (if b then true else c) ≡ true
    if_either true e = refl
    if_either false e = e

-- A unit that the password repeats is found, whatever shorter unit is tried before it.
any_unit-found :
    (n : ℕ) (p : Text)
    → 0 < n
    → n ≤ 4
    → n ≤ length p
    → repeats n p ≡ true
    → any_unit (1 ∷ 2 ∷ 3 ∷ 4 ∷ []) p ≡ true
any_unit-found zero p pos short h found = absurd (omega arith)
any_unit-found (suc zero) p pos short h found = any_unit-here 1 _ p h found
any_unit-found (suc (suc zero)) p pos short h found =
    any_unit-later 1 _ p (omega (arith, h)) (any_unit-here 2 _ p h found)
any_unit-found (suc (suc (suc zero))) p pos short h found =
    any_unit-later 1 _ p (omega (arith, h))
      (any_unit-later 2 _ p (omega (arith, h)) (any_unit-here 3 _ p h found))
any_unit-found (suc (suc (suc (suc zero)))) p pos short h found =
    any_unit-later 1 _ p (omega (arith, h)) (
      any_unit-later 2 _ p (omega (arith, h))
        (any_unit-later 3 _ p (omega (arith, h)) (any_unit-here 4 _ p h found)))
any_unit-found (suc (suc (suc (suc (suc n))))) p pos short h found = absurd (omega arith)

-- One to four characters, three times or more, and fewer characters than these after them.
pub repetitive_refused :
    (k : ℕ) (u tail : Text)
    → 0 < length u
    → length u ≤ 4
    → length tail < length u
    → 3 ≤ suc k
    → is_repetitive (repeat (suc k) u ++ tail) ≡ true
unfolding is_repetitive
repetitive_refused k u tail some_unit short rest three =
    let p = repeat (suc k) u ++ tail in
    let long : length p ≡ suc k * length u + length tail =
      length-append (repeat (suc k) u) tail ∙ ap (λ m. m + length tail) (length-repeat (suc k) u) in
    let fit : length u ≤ length p = rw long (grind arith) in
    by_parts p (is_empty_of_long p (omega (arith, fit))) (
      any_unit-found (length u) p some_unit short fit
        (repeats-repeat k u tail some_unit short rest three))
  where
    is_empty_of_long : (p : Text) → 0 < length p → is_empty p ≡ false
    is_empty_of_long [] h = absurd (omega arith)
    is_empty_of_long (c ∷ p) h = refl

    by_parts :
        (p : Text)
        → is_empty p ≡ false
        → any_unit (1 ∷ 2 ∷ 3 ∷ 4 ∷ []) p ≡ true
        → (not (is_empty p) && (leb (distinct p) 2 || any_unit (1 ∷ 2 ∷ 3 ∷ 4 ∷ []) p)) ≡ true
    by_parts p e found = rw e (rw found (either (leb (distinct p) 2)))
      where
        either : (b : Bool) → (b || true) ≡ true
        either true = refl
        either false = refl
