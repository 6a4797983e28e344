-- ===== src/Core/Value/Equality.antt =====
-- When Python's `==` holds between two values.
use crm_starter.Prelude.{
  ◌≡◌, ◌↔◌, refl, ap, Bool, true, List, [], ◌∷◌, arith, any, keep, ◌&&◌, Bool-cases, inl, inr,
}
use crm_starter.Prelude.Int.{ℤ, eqb_ℤ}
use crm_starter.Core.Value.{
  Text, Value, null, bool, num, text, date, datetime, text_eq, int_of, py_eq,
}

pub text_eq→eq : (s t : Text) → text_eq s t ≡ true → s ≡ t
text_eq→eq [] [] h = refl
text_eq→eq (a ∷ s) (b ∷ t) h = ground (arith, text_eq→eq s t)
text_eq→eq [] (b ∷ t) h = cc
text_eq→eq (a ∷ s) [] h = cc

pub text_eq_refl : (s : Text) → text_eq s s ≡ true
text_eq_refl [] = refl
text_eq_refl (a ∷ s) = ground (arith, text_eq_refl s)

-- Whether a text is among those that are kept.
pub any-keep :
    (p : Text → Bool) (ls : List Text) (l : Text)
    → any (text_eq l) (keep p ls) ≡ (p l && any (text_eq l) ls)
any-keep p [] l = ground arith
any-keep p (k ∷ ls) l = elim (Bool-cases (text_eq l k)) [
  | inl e ↦ ground (arith, e, ap p (text_eq→eq l k e), any-keep p ls l)
  | inr e ↦ ground (arith, e, any-keep p ls l)
]

eqb_ℤ→eq : (a b : ℤ) → eqb_ℤ a b ≡ true → a ≡ b
eqb_ℤ→eq a b h = ground arith

eqb_ℤ_refl : (a : ℤ) → eqb_ℤ a a ≡ true
eqb_ℤ_refl a = ground arith

-- `True` and `1` are one key of a dict.
pub canon : Value → Value
canon (bool b) = num (int_of b)
canon v = v

py_eq→eq : (a b : Value) → py_eq a b ≡ true → canon a ≡ canon b
unfolding py_eq canon
py_eq→eq null null h = refl
py_eq→eq (bool a) (bool b) h = ap num (eqb_ℤ→eq (int_of a) (int_of b) h)
py_eq→eq (bool a) (num b) h = ap num (eqb_ℤ→eq (int_of a) b h)
py_eq→eq (num a) (bool b) h = ap num (eqb_ℤ→eq a (int_of b) h)
py_eq→eq (num a) (num b) h = ap num (eqb_ℤ→eq a b h)
py_eq→eq (text a) (text b) h = ap text (text_eq→eq a b h)
py_eq→eq (date a) (date b) h = ap date (ground arith)
py_eq→eq (datetime a) (datetime b) h = ap datetime (ground arith)
py_eq→eq _ _ h = cc

py_eq_refl_canon : (a : Value) → py_eq (canon a) (canon a) ≡ true
unfolding py_eq canon
py_eq_refl_canon null = refl
py_eq_refl_canon (bool b) = eqb_ℤ_refl (int_of b)
py_eq_refl_canon (num n) = eqb_ℤ_refl n
py_eq_refl_canon (text t) = text_eq_refl t
py_eq_refl_canon (date d) = ground arith
py_eq_refl_canon (datetime t) = ground arith

py_eq-canon : (a b : Value) → py_eq (canon a) (canon b) ≡ true → py_eq a b ≡ true
unfolding py_eq canon
py_eq-canon (bool a) (bool b) h = h
py_eq-canon (num a) (bool b) h = h
py_eq-canon (bool a) b h = by_right b h
  where
    by_right : (c : Value) → py_eq (num (int_of a)) (canon c) ≡ true → py_eq (bool a) c ≡ true
    by_right (num n) k = k
    by_right (bool n) k = k
    by_right _ k = k
py_eq-canon a (bool b) h = by_left a h
  where
    by_left : (c : Value) → py_eq (canon c) (num (int_of b)) ≡ true → py_eq c (bool b) ≡ true
    by_left (num n) k = k
    by_left (bool n) k = k
    by_left _ k = k
py_eq-canon null null h = h
py_eq-canon _ _ h = h

pub py_eq_iff : (a b : Value) → (py_eq a b ≡ true) ↔ (canon a ≡ canon b)
py_eq_iff a b = (py_eq→eq a b, λ e. py_eq-canon a b (rw e (py_eq_refl_canon b)))

pub py_eq_refl : (a : Value) → py_eq a a ≡ true
py_eq_refl a = (py_eq_iff a a).1 refl
