-- ===== src/Auth/Passwords/Accepted.antt =====
-- What a password that the rules accept is not.
use crm_starter.Prelude.{
  ℕ, suc, ◌≤◌, ◌<◌, ◌≡◌, ◌≢◌, ap, Bool, false, not, ◌&&◌, ◌||◌, [], ◌++◌, any, length, ltb,
  ltb-false, arith,
}
use crm_starter.Core.Value.{Text, Runtime, text_eq}
use crm_starter.Core.Placement.{strip}
use crm_starter.Providers.Local.{is_infix}
use crm_starter.Auth.Passwords.{
  Problem, too_short, too_long, too_common, repetitive, codes, common_words, check_password, one_if,
  is_repetitive, candidates, is_within, is_empty, max_length, repeat,
}
use crm_starter.Auth.Passwords.Repeated.{repetitive_refused}

no_problem :
    (b c d e f : Bool) (p q r s t : Problem)
    → one_if b p ++ (one_if c q ++ (one_if d r ++ (one_if e s ++ one_if f t))) ≡ []
    → (b ≡ false) × (c ≡ false) × (e ≡ false) × (f ≡ false)
no_problem b c d e f p q r s t h = ground (arith, h)

not_within :
    (lower : Text → Text) (password part : Text)
    → is_within lower password part ≡ false
    → is_empty part ≡ false
    → is_infix (lower part) (lower password) ≡ false
not_within lower password part h e = rw e at h

-- An accepted password is within the lengths; with the blanks at its ends taken off, it is no text of
-- one to four characters written three times or more with fewer characters than that behind it; and,
-- in lower case, it holds neither the address nor the name of the account, where that is not empty.
pub accepted :
    (rt : Runtime) (lower : Text → Text) (password email name : Text) (min_length : ℕ)
    → check_password rt lower password email name min_length ≡ []
    → (min_length ≤ length password)
      × (length password ≤ max_length)
      × ((k : ℕ) (u tail : Text)
          → 0 < length u
          → length u ≤ 4
          → length tail < length u
          → 3 ≤ suc k
          → strip rt password ≢ repeat (suc k) u ++ tail)
      × (is_empty email ≡ false → is_infix (lower email) (lower password) ≡ false)
      × (is_empty name ≡ false → is_infix (lower name) (lower password) ≡ false)
unfolding check_password
accepted rt lower password email name min_length h =
    let stripped = strip rt password in
    let (short, long, repeated, personal) =
      no_problem (ltb (length password) min_length) (ltb max_length (length password))
        (not (is_empty stripped) && any (λ w. text_eq (lower stripped) (codes w)) common_words)
        (is_repetitive stripped) (any (is_within lower password) (candidates rt email name))
        too_short too_long too_common repetitive Problem.personal h in
    (
      ltb-false (length password) min_length short,
      ltb-false max_length (length password) long,
      (λ k u tail some_unit most rest three same.
          cc (
            repetitive_refused k u tail some_unit most rest three,
            ap is_repetitive same,
            repeated,
          )),
      not_within lower password email (or_left _ _ personal),
      not_within lower password name (or_left _ _ (or_right _ _ personal)),
    )
  where
    or_left : (a b : Bool) → (a || b) ≡ false → a ≡ false
    or_left a b e = ground (arith, e)

    or_right : (a b : Bool) → (a || b) ≡ false → b ≡ false
    or_right a b e = ground (arith, e)
