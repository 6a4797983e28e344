-- ===== src/Auth/Manage.antt =====
-- The passwords of LocalPasswordAuth in app/auth/local.py, and the reset links of
-- app/auth/passwords.py.
pub mod Reset
pub mod SignsIn
use crm_starter.Prelude.{
  ℕ, Bool, true, false, not, Option, none, some, List, [], ◌∷◌, ◌++◌, if◌then◌else◌,
}
use crm_starter.Core.Value.{
  Text, Value, null, bool, text, datetime, Row, Record, get, pk, str, text_eq, py_eq,
}
use crm_starter.Core.Results.{Error, key_error, Result, ok, raise, WriteResult}
use crm_starter.Providers.Sequence.{truthy}
use crm_starter.Auth.Passwords.{Problem, check_password, is_empty}
use crm_starter.Auth.Accounts.{
  Users, Outside, LocalAuth, Refusal, gone, wrong_current, unchanged, weak, Outcome, answer, refuse,
  crash,
}
use crm_starter.Auth.Login.{find_user, text_of, text_or, is_active, cleared}

-- Signing and hashing of itsdangerous and hashlib. `loads` gives nothing for a signature that is
-- wrong or too old, and no row for a payload that is no dict.
pub record Signer : Type 0 where
  pub dumps : Row → Text
  pub loads : Text → Option (Option Row)
  pub fingerprint : Text → Text

abbrev pub payload : Signer → Text → Text → Row
payload g subject stored = ("sub", text subject) ∷ ("pw", text (g.fingerprint stored)) ∷ []

-- `ResetTokens.issue` and `verify`.
unfoldable pub issue : Signer → Text → Text → Text
issue g subject stored = g.dumps (payload g subject stored)

-- Whether the digest in a payload is that of a hash.
abbrev pub is_current : Signer → Option Value → Text → Bool
is_current g none stored = false
is_current g (some v) stored = py_eq v (text (g.fingerprint stored))

abbrev pub read_payload : Outside → Signer → Option (Option Row) → Text → Option Text
read_payload o g none stored = none
read_payload o g (some none) stored = none
read_payload o g (some (some row)) stored =
    if is_current g (get row "pw") stored
    then (if truthy (get row "sub") then some (text_of o.rt (get row "sub")) else none)
    else none

unfoldable pub verify : Outside → Signer → Text → Text → Option Text
verify o g token stored = read_payload o g (g.loads token) stored

-- `str(payload.get("sub"))`
unfoldable pub peek_subject : Outside → Signer → Text → Option Text
peek_subject o g token = elim (g.loads token) [
  | none ↦ none
  | some none ↦ none
  | some (some row) ↦ some (elim (get row "sub") [ none ↦ str o.rt null | some v ↦ str o.rt v ])
]

-- What is stored with a new password; it ends a lockout.
abbrev pub new_password : Outside → LocalAuth → Text → Bool → ℕ → Row
new_password o a password must_change now =
    (a.password_field, text (o.hash password))
    ∷ ("password_changed_at", datetime now)
    ∷ ("must_change_password", bool must_change)
    ∷ cleared

unfoldable pub problems : Outside → LocalAuth → Text → Record → List Problem
problems o a password user =
    check_password o.rt o.lower password (text_of o.rt (get user.data_of a.identity_field))
      (text_or o.rt [] (get user.data_of a.name_field)) a.min_length

module _ {ℓ} {S : Type ℓ} (o : Outside) (u : Users S) (a : LocalAuth) where
  -- `_by_pk`: what the store raises reads as no account.
  unfoldable pub by_pk : S → Text → Option Record
  by_pk s subject = elim (u.find s (text subject)) [ raise e ↦ none | ok found ↦ found ]

  unfoldable pub by_subject : S → Text → Text → Result (Option Record)
  by_subject s subject email = elim (by_pk s subject) [
    | some user ↦ ok (some user)
    | none ↦ if is_empty email then ok none else find_user o u a s email
  ]

  -- Unlike the notes of a sign-in, an update that raises is raised on.
  abbrev pub stored_to : Outcome (Unit {0}) → Result WriteResult × S → Outcome (Unit {0}) × S
  stored_to result (raise e, s) = (crash e, s)
  stored_to result (ok r, s) = (result, s)

  unfoldable pub store_password : S → Record → Text → Bool → ℕ → Outcome (Unit {0}) × S
  store_password s user password must_change now =
      stored_to (answer tt) (u.update s (pk user) (new_password o a password must_change now))

  abbrev pub store_if : S → Record → Text → Bool → ℕ → List Problem → Outcome (Unit {0}) × S
  store_if s user new must_change now [] = store_password s user new must_change now
  store_if s user new must_change now (p ∷ ps) = (refuse (weak (p ∷ ps)), s)

  unfoldable pub validate_and_store : S → Record → Text → Bool → ℕ → Outcome (Unit {0}) × S
  validate_and_store s user new must_change now =
      store_if s user new must_change now (problems o a new user)

  -- The checks of a change by the holder of a password, once the account is found.
  abbrev pub change_found : S → Record → Text → Text → ℕ → Outcome (Unit {0}) × S
  change_found s user current new now = elim (get user.data_of a.password_field) [
    | none ↦ (crash key_error, s)
    | some stored ↦
        if o.verify (str o.rt stored) current
        then (if text_eq current new
            then (refuse unchanged, s)
            else validate_and_store s user new false now)
        else (refuse wrong_current, s)
  ]

  unfoldable pub change_password : S → Text → Text → Text → Text → ℕ → Outcome (Unit {0}) × S
  change_password s subject email current new now = elim (by_subject s subject email) [
    | raise e ↦ (crash e, s)
    | ok none ↦ (refuse gone, s)
    | ok (some user) ↦ change_found s user current new now
  ]

  unfoldable pub set_password : S → Text → Text → Bool → ℕ → Outcome (Unit {0}) × S
  set_password s subject new must_change now = elim (by_pk s subject) [
    | none ↦ (refuse gone, s)
    | some user ↦ validate_and_store s user new must_change now
  ]

  unfoldable pub issue_reset_token : Signer → S → Text → Outcome (Option (Text × Record))
  issue_reset_token g s username = elim (find_user o u a s username) [
    | raise e ↦ crash e
    | ok none ↦ answer none
    | ok (some user) ↦
        if is_active o a user
        then elim (get user.data_of a.password_field) [
          | none ↦ crash key_error
          | some stored ↦ answer (some (issue g (str o.rt (pk user)) (str o.rt stored), user))
        ]
        else answer none
  ]

  -- The account that a link was redeemed for.
  abbrev pub redeemed : Record → Outcome (Unit {0}) × S → Outcome (Option Record) × S
  redeemed user (answer x, s) = (answer (some user), s)
  redeemed user (refuse r, s) = (refuse r, s)
  redeemed user (crash e, s) = (crash e, s)

  abbrev pub redeem_verified : S → Record → Text → ℕ → Option Text → Outcome (Option Record) × S
  redeem_verified s user new now none = (answer none, s)
  redeem_verified s user new now (some subject) =
      redeemed user (validate_and_store s user new false now)

  abbrev pub redeem_for :
      Signer → S → Record → Text → Text → ℕ → Option Value → Outcome (Option Record) × S
  redeem_for g s user token new now none = (crash key_error, s)
  redeem_for g s user token new now (some stored) =
      redeem_verified s user new now (verify o g token (str o.rt stored))

  abbrev pub redeem_account :
      Signer → S → Text → Text → ℕ → Option Record → Outcome (Option Record) × S
  redeem_account g s token new now none = (answer none, s)
  redeem_account g s token new now (some user) =
      redeem_for g s user token new now (get user.data_of a.password_field)

  abbrev pub redeem_peeked :
      Signer → S → Text → Text → ℕ → Option Text → Outcome (Option Record) × S
  redeem_peeked g s token new now none = (answer none, s)
  redeem_peeked g s token new now (some subject) =
      redeem_account g s token new now (by_pk s subject)

  unfoldable pub redeem_reset_token : Signer → S → Text → Text → ℕ → Outcome (Option Record) × S
  redeem_reset_token g s token new now = redeem_peeked g s token new now (peek_subject o g token)
