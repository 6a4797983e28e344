-- ===== src/Auth/Passwords.antt =====
-- The rules of app/auth/passwords.py for a new password.
pub mod Repeated
pub mod Accepted
use Prim.Native.Char.{Char, code}
use Prim.Native.String
use crm_starter.Prelude.{
  ℕ, zero, suc, ◌+◌, ◌*◌, ◌/◌, Bool, true, false, not, ◌&&◌, ◌||◌, String, List, [], ◌∷◌, ◌++◌, any,
  keep, map, length, take, ltb, leb, if◌then◌else◌, ◌==◌,
}
use crm_starter.Core.Value.{Text, Runtime, text_eq}
use crm_starter.Core.Placement.{strip}
use crm_starter.Providers.Local.{is_infix, words}

-- The code points of a literal.
abbrev pub codes : String → Text
codes String.[] = []
codes (String.◌∷◌ c s) = code c ∷ codes s

abbrev pub max_length : ℕ
max_length = 128

-- `COMMON`
abbrev pub common_words : List String
common_words =
    "password" ∷ "password1" ∷ "password123" ∷ "passw0rd" ∷ "letmein" ∷ "welcome" ∷ "welcome1"
    ∷ "admin" ∷ "admin123" ∷ "qwerty" ∷ "qwerty123" ∷ "123456" ∷ "1234567" ∷ "12345678"
    ∷ "123456789" ∷ "1234567890" ∷ "111111" ∷ "000000" ∷ "iloveyou" ∷ "dragon" ∷ "monkey"
    ∷ "sunshine" ∷ "princess" ∷ "football" ∷ "baseball" ∷ "starwars" ∷ "master" ∷ "superman"
    ∷ "trustno1" ∷ "whatever" ∷ "changeme" ∷ "abc123" ∷ "abcd1234" ∷ "test1234" ∷ "secret"
    ∷ "summer" ∷ "winter" ∷ "spring" ∷ "autumn" ∷ "january" ∷ "temporary" ∷ "temp1234" ∷ "pass1234"
    ∷ "letmein123" ∷ "hello123" ∷ []

pub data Problem : Type 0 where
  too_short too_long too_common repetitive personal : Problem

abbrev pub is_empty : Text → Bool
is_empty [] = true
is_empty (c ∷ t) = false

-- `text.split("@")[0]`
unfoldable pub before_at : Text → Text
before_at [] = []
before_at (c ∷ t) = let rest = before_at t in if c == b'@' then [] else c ∷ rest

unfoldable pub name_parts : Runtime → Text → Text → List Text
unfolding before_at words
name_parts rt email name = keep (λ p. not (is_empty p)) (before_at email ∷ words rt name)

abbrev pub one_if : Bool → Problem → List Problem
one_if b problem = if b then problem ∷ [] else []

-- `len(set(password))`
unfoldable pub distinct : Text → ℕ
distinct [] = 0
distinct (c ∷ t) = let rest = distinct t in if any (λ d. c == d) t then rest else suc rest

-- `unit * k`
unfoldable pub repeat : ℕ → Text → Text
repeat zero unit = []
repeat (suc k) unit = unit ++ repeat k unit

unfoldable pub repeats : ℕ → Text → Bool
unfolding repeat
repeats size p =
    let times = length p / size in
    text_eq (repeat times (take size p)) (take (times * size) p) && leb 3 times

-- The loop over the sizes of a unit; it ends at one that the password is shorter than.
unfoldable pub any_unit : List ℕ → Text → Bool
unfolding repeats
any_unit [] p = false
any_unit (size ∷ sizes) p =
    let rest = any_unit sizes p in
    if ltb (length (take size p)) size then false else if repeats size p then true else rest

unfoldable pub is_repetitive : Text → Bool
unfolding distinct
is_repetitive p = not (is_empty p) && (leb (distinct p) 2 || any_unit (1 ∷ 2 ∷ 3 ∷ 4 ∷ []) p)

-- The texts of the account that a password may not contain.
abbrev pub candidates : Runtime → Text → Text → List Text
candidates rt email name = email ∷ name ∷ keep (λ p. leb 4 (length p)) (name_parts rt email name)

abbrev pub is_within : (Text → Text) → Text → Text → Bool
is_within lower password part = not (is_empty part) && is_infix (lower part) (lower password)

-- Every problem of a proposed password.
unfoldable pub check_password : Runtime → (Text → Text) → Text → Text → Text → ℕ → List Problem
unfolding name_parts is_infix
check_password rt lower password email name min_length =
    let stripped = strip rt password in
    let is_common = any (λ w. text_eq (lower stripped) (codes w)) common_words in
    one_if (ltb (length password) min_length) too_short
    ++ (one_if (ltb max_length (length password)) too_long
        ++ (one_if (not (is_empty stripped) && is_common) too_common
            ++ (one_if (is_repetitive stripped) repetitive
                ++ one_if (any (is_within lower password) (candidates rt email name)) personal)))
