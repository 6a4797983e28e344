-- ===== src/Auth/Login.antt =====
-- LocalPasswordAuth of app/auth/local.py: sign-in against a table of users, with its lockout. One
-- instant `now` stands for the readings of the clock within one call.
pub mod Guesses
pub mod Concurrent
use crm_starter.Prelude.{
  ℕ, Bool, true, false, not, ◌&&◌, ◌||◌, String, Option, none, some, List, [], ◌∷◌, ◌++◌, any, keep,
  map, if◌then◌else◌, ◌==◌,
}
use crm_starter.Prelude.Int.{ℤ, pos, eqb_ℤ}
use crm_starter.Core.Value.{
  Text, Value, null, bool, num, text, datetime, Runtime, Row, Record, get, pk, str, text_eq,
}
use crm_starter.Core.Query.{Op, scalar, Filter, cond, ListQuery, default_query}
use crm_starter.Core.Results.{key_error, Result, ok, raise}
use crm_starter.Core.Texts.{split_on}
use crm_starter.Core.Placement.{strip}
use crm_starter.Providers.Sequence.{truthy}
use crm_starter.Auth.Passwords.{is_empty}
use crm_starter.Auth.Lockout.{LockoutPolicy, enabled, is_locked, next_state}
use crm_starter.Auth.Accounts.{
  Users, Outside, LocalAuth, Refusal, missing, locked, mismatch, Outcome, answer, refuse, crash,
  SignIn, int_or_zero, instant_of,
}

-- `str(user.get(field, ""))`, and with `or ""` inside.
abbrev pub text_of : Runtime → Option Value → Text
text_of rt none = []
text_of rt (some v) = str rt v

abbrev pub text_or : Runtime → Text → Option Value → Text
text_or rt default v = if truthy v then text_of rt v else default

abbrev lower_str : Outside → Value → Text
lower_str o v = o.lower (str o.rt v)

abbrev no_words : List Text
no_words = (b'0' ∷ []) ∷ (b'f' ∷ b'a' ∷ b'l' ∷ b's' ∷ b'e' ∷ []) ∷ (b'n' ∷ b'o' ∷ []) ∷ []

abbrev yes_words : List Text
yes_words =
    (b'1' ∷ [])
    ∷ (b't' ∷ b'r' ∷ b'u' ∷ b'e' ∷ [])
    ∷ (b'y' ∷ b'e' ∷ b's' ∷ [])
    ∷ (b'o' ∷ b'n' ∷ [])
    ∷ []

unfoldable pub is_active : Outside → LocalAuth → Record → Bool
is_active o a user = elim (get user.data_of a.active_field) [
  | none ↦ true
  | some v ↦ elim v [ bool b ↦ b | other ↦ not (any (text_eq (lower_str o other)) no_words) ]
]

-- A boolean from whatever the backend stored.
unfoldable pub flag : Outside → Option Value → Bool
flag o none = false
flag o (some null) = false
flag o (some (bool b)) = b
flag o (some v) = any (text_eq (o.lower (strip o.rt (str o.rt v)))) yes_words

abbrev comma_parts : Outside → Text → List Text
comma_parts o t = keep (λ p. not (is_empty p)) (map (strip o.rt) (split_on b',' t))

abbrev starts_bracket : Text → Bool
starts_bracket [] = false
starts_bracket (c ∷ t) = c == b'['

-- Roles as a JSON list, or separated by commas.
unfoldable pub parse_roles : Outside → Option Value → List Text
unfolding split_on
parse_roles o v =
    let t = strip o.rt (text_of o.rt v) in
    if truthy v
    then if starts_bracket t
      then elim (o.json_list t) [ some roles ↦ roles | none ↦ comma_parts o t ]
      else comma_parts o t
    else []

abbrev utc : Text
utc = b'U' ∷ b'T' ∷ b'C' ∷ []

unfoldable pub to_identity : Outside → LocalAuth → Record → SignIn
unfolding parse_roles
to_identity o a user = record {
  subject = str o.rt (pk user);
  email = text_of o.rt (get user.data_of a.identity_field);
  display_name = text_or o.rt [] (get user.data_of a.name_field);
  roles = parse_roles o (get user.data_of a.roles_field);
  timezone = text_or o.rt utc (get user.data_of a.timezone_field);
  must_change_password = false;
}

-- The end of the lock of an account, if it is locked.
unfoldable pub locked_until : Outside → LocalAuth → Record → ℕ → Option ℕ
locked_until o a user now =
    let until = instant_of o (get user.data_of "locked_until") in
    if is_locked until now then until else none

abbrev pub instant_or_none : Option ℕ → Value
instant_or_none none = null
instant_or_none (some t) = datetime t

-- What is written after a wrong guess.
abbrev pub failure_changes : ℤ × Option ℕ → ℕ → Row
failure_changes (count, until) now =
    ("failed_logins", num count)
    ∷ ("last_failed_login", datetime now)
    ∷ ("locked_until", instant_or_none until)
    ∷ []

abbrev pub cleared : Row
cleared = ("failed_logins", num (pos 0)) ∷ ("last_failed_login", null) ∷ ("locked_until", null) ∷ []

-- `**changes` of a sign-in: its time, the cleared count where there is one, the new hash.
unfoldable pub success_changes : Outside → LocalAuth → Record → ℤ → Text → Text → ℕ → Row
success_changes o a user failures password stored now =
    let counted = not (eqb_ℤ failures (pos 0)) || truthy (get user.data_of "locked_until") in
    ("last_login", datetime now)
    ∷ ((if counted then cleared else [])
        ++ (if o.needs_rehash stored then (a.password_field, text (o.hash password)) ∷ [] else []))

abbrev pub find_query : Outside → LocalAuth → Text → ListQuery
find_query o a username = record default_query {
  filter = some (
      cond (record {
        field = a.identity_field;
        op = Op.eq;
        value = scalar (text (o.lower (strip o.rt username)));
      }));
  page_size = 2;
  with_total = false;
}

abbrev first : List Record → Option Record
first [] = none
first (r ∷ rs) = some r

module _ {ℓ} {S : Type ℓ} (o : Outside) (u : Users S) (a : LocalAuth) where
  unfoldable pub find_user : S → Text → Result (Option Record)
  find_user s username = elim (u.list s (find_query o a username)) [
    | raise e ↦ raise e
    | ok page ↦ ok (first page.items)
  ]

  -- `_write`: what the update raises is logged and forgotten.
  abbrev pub write : S → Record → Row → S
  write s user changes = (u.update s (pk user) changes).1

  unfoldable pub record_failure : S → Record → ℕ → Result (Unit {0}) × S
  record_failure s user now = elim (int_or_zero o (get user.data_of "failed_logins")) [
    | raise e ↦ (raise e, s)
    | ok failures ↦
        let last = instant_of o (get user.data_of "last_failed_login") in
        (ok tt, write s user (failure_changes (next_state a.lockout failures last now) now))
  ]

  unfoldable pub record_success : S → Record → Text → Text → ℕ → Result (Unit {0}) × S
  record_success s user password stored now =
      elim (int_or_zero o (get user.data_of "failed_logins")) [
        | raise e ↦ (raise e, s)
        | ok failures ↦
            (ok tt, write s user (success_changes o a user failures password stored now))
      ]

  -- What a call answers, unless what it noted raised.
  abbrev pub once_noted : Outcome SignIn → Result (Unit {0}) × S → Outcome SignIn × S
  once_noted result (raise e, s) = (crash e, s)
  once_noted result (ok x, s) = (result, s)

  -- A guess that is refused: counted, where there is an account and the lockout is on.
  abbrev pub refuse_guess : S → Option Record → ℕ → Outcome SignIn × S
  refuse_guess s none now = (refuse mismatch, s)
  refuse_guess s (some user) now =
      if enabled a.lockout
      then once_noted (refuse mismatch) (record_failure s user now)
      else (refuse mismatch, s)

  -- A password to be replaced is carried on the identity.
  abbrev pub signed_in : Record → SignIn
  signed_in user =
      let identity = to_identity o a user in
      let must = flag o (get user.data_of "must_change_password") in
      if must then record identity { must_change_password = true } else identity

  abbrev pub accept : S → Record → Text → Text → ℕ → Outcome SignIn × S
  accept s user password stored now =
      once_noted (answer (signed_in user)) (record_success s user password stored now)

  -- The sign-in of an account that is there and not locked; a hash that is missing is a KeyError.
  unfoldable pub check_account : S → Record → Text → ℕ → Outcome SignIn × S
  check_account s user password now = elim (get user.data_of a.password_field) [
    | none ↦ (crash key_error, s)
    | some v ↦
        let stored = str o.rt v in
        if o.verify stored password && is_active o a user
        then accept s user password stored now
        else refuse_guess s (some user) now
  ]

  unfoldable pub login : S → Text → Text → ℕ → Outcome SignIn × S
  login s given password now =
      let username = strip o.rt given in
      if is_empty username || is_empty password
      then (refuse missing, s)
      else elim (find_user s username) [
        | raise e ↦ (crash e, s)
        | ok none ↦ refuse_guess s none now
        | ok (some user) ↦ elim (locked_until o a user now) [
          | some until ↦ (refuse (locked until), s)
          | none ↦ check_account s user password now
        ]
      ]
