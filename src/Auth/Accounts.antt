-- ===== src/Auth/Accounts.antt =====
-- What app/auth/local.py reads and writes: the user store, the values of its columns, and the results.
use crm_starter.Prelude.{
  ℕ, ◌*◌, Bool, String, Option, none, some, List, [], ◌∷◌, map, if◌then◌else◌, ◌==◌,
}
use crm_starter.Prelude.Int.{ℤ, pos}
use crm_starter.Core.Value.{
  Text, Value, null, bool, num, text, date, datetime, Runtime, Row, Record, str, int_of,
}
use crm_starter.Core.Query.{ListQuery, Page}
use crm_starter.Core.Results.{Error, value_error, type_error, Result, ok, raise, WriteResult}
use crm_starter.Core.Placement.{strip}
use crm_starter.Providers.Sequence.{truthy}
use crm_starter.Auth.Passwords.{Problem}
use crm_starter.Auth.Lockout.{LockoutPolicy}

-- The user store, whose calls may raise.
pub record Users {ℓ} (S : Type ℓ) : Type ℓ where
  pub list : S → ListQuery → Result (Page Record)
  pub find : S → Value → Result (Option Record)
  pub update : S → Value → Row → Result WriteResult × S

-- What argon2, the json module and the standard library do for the sign-in: checking and making a
-- hash, reading numbers, instants and JSON lists, and lower case.
pub record Outside : Type 0 where
  pub rt : Runtime
  pub lower : Text → Text
  pub verify : Text → Text → Bool
  pub needs_rehash : Text → Bool
  pub hash : Text → Text
  pub dummy_hash : Text
  pub parse_int : Text → Option ℤ
  pub from_iso : Text → Option ℕ
  pub json_list : Text → Option (List Text)

-- The columns and rules of `LocalPasswordAuth`.
pub record LocalAuth : Type 0 where
  pub identity_field : String
  pub password_field : String
  pub name_field : String
  pub roles_field : String
  pub active_field : String
  pub timezone_field : String
  pub min_length : ℕ
  pub lockout : LockoutPolicy

-- Why a sign-in or a new password is refused: `AuthError`, by its message.
pub data Refusal : Type 0 where
  missing : Refusal
  locked : ℕ → Refusal
  mismatch : Refusal
  gone : Refusal
  wrong_current : Refusal
  unchanged : Refusal
  weak : List Problem → Refusal

pub data Outcome (A : Type 0) : Type 0 where
  answer : A → Outcome A
  refuse : Refusal → Outcome A
  crash : Error → Outcome A

-- The fields of `Identity` that a sign-in fills.
pub record SignIn : Type 0 where
  pub subject : Text
  pub email : Text
  pub display_name : Text
  pub roles : List Text
  pub timezone : Text
  pub must_change_password : Bool

abbrev plus_zero : Text → Text
plus_zero [] = []
plus_zero (c ∷ []) = if c == b'Z' then b'+' ∷ b'0' ∷ b'0' ∷ b':' ∷ b'0' ∷ b'0' ∷ [] else c ∷ []
plus_zero (c ∷ d ∷ t) = c ∷ plus_zero (d ∷ t)

-- "Z" at the end becomes "+00:00", and blanks become "T".
abbrev iso_text : Runtime → Text → Text
iso_text rt t = plus_zero (map (λ c. if c == 32 then b'T' else c) (strip rt t))

-- `clock.parse`.
abbrev pub parse : Outside → Value → Option ℕ
parse o (datetime t) = some t
parse o (date d) = some (d * 86_400_000_000)
parse o v = if truthy (some v) then o.from_iso (iso_text o.rt (str o.rt v)) else none

-- `int(v)`, and `int(v or 0)`.
abbrev pub int_value : Outside → Value → Result ℤ
int_value o (bool b) = ok (int_of b)
int_value o (num n) = ok n
int_value o (text t) = elim (o.parse_int t) [ none ↦ raise value_error | some n ↦ ok n ]
int_value o v = raise type_error

abbrev pub int_or_zero : Outside → Option Value → Result ℤ
int_or_zero o none = ok (pos 0)
int_or_zero o (some v) = if truthy (some v) then int_value o v else ok (pos 0)

abbrev pub instant_of : Outside → Option Value → Option ℕ
instant_of o none = none
instant_of o (some null) = none
instant_of o (some v) = parse o v
