-- ===== src/Tests/Accounts.antt =====
-- A store of one account, and what the sign-in uses of other libraries, over plain texts.
use crm_starter.Prelude.{
  ℕ, ◌≡◌, refl, sym, Bool, false, none, some, [], ◌∷◌, if◌then◌else◌, Bool-cases, inl, inr,
}
use crm_starter.Prelude.Assoc.{some-inj, IsDict}
use crm_starter.Core.Value.{Text, text, Row, Record, get, merge_rows, text_eq}
use crm_starter.Core.Value.Merging.{get-merge_other}
use crm_starter.Core.Query.{ListQuery, Page}
use crm_starter.Core.Results.{ok, success, ok-inj}
use crm_starter.Providers.Local.{match, match_tree, match_condition}
use crm_starter.Auth.Accounts.{Users, Outside, LocalAuth}
use crm_starter.Auth.Login.{find_user, find_query, write}
use crm_starter.Auth.Login.Guesses.{KeepsAccounts}
use crm_starter.Tests.Data.{ascii, rome, oslo}
use crm_starter.Auth.Passwords.{codes}
use crm_starter.Auth.Login.{text_of}
use crm_starter.Auth.Manage.{Signer, by_pk, new_password}
use crm_starter.Auth.Manage.Reset.{KeepsRows}

abbrev pub tools : Outside
tools = record {
  rt = ascii;
  lower = λ t. t;
  verify = text_eq;
  needs_rehash = λ h. false;
  hash = λ p. p;
  dummy_hash = [];
  parse_int = λ t. none;
  from_iso = λ t. none;
  json_list = λ t. none;
}

abbrev answer_to : Record → ListQuery → Page Record
answer_to account q = record {
  items = if match ascii account.data_of q.filter then account ∷ [] else [];
  page = q.page;
  page_size = q.page_size;
  total = none;
  has_more = some false;
}

-- A store of one account.
abbrev pub one_account : Users Record
one_account = record {
  list = λ account q. ok (answer_to account q);
  find = λ account key. ok (some account);
  update = λ account key changes.
      let after : Record = record account { data_of = merge_rows account.data_of changes } in
      (ok (success after), after);
}

abbrev pub two_guesses : LocalAuth
two_guesses = record {
  identity_field = "email";
  password_field = "password_hash";
  name_field = "name";
  roles_field = "roles";
  active_field = "is_active";
  timezone_field = "timezone";
  min_length = 12;
  lockout = record { max_attempts = 2; lock_minutes = 15; window_minutes = 60 };
}

match-merge_rows :
    (row changes : Row) (name : Text)
    → get changes "email" ≡ none
    → match ascii (merge_rows row changes) (find_query tools two_guesses name).filter
      ≡ match ascii row (find_query tools two_guesses name).filter
unfolding match_tree match_condition
match-merge_rows row changes name h =
    rw (get-merge_other row changes "email" h, match_condition) refl

one_account-kept :
    (s : Record) (name : Text) (user : Record) (changes : Row)
    → find_user tools one_account two_guesses s name ≡ ok (some user)
    → get changes "email" ≡ none
    → find_user tools one_account two_guesses
        (write tools one_account two_guesses s user changes)
        name
      ≡ ok (some (record user { data_of = merge_rows user.data_of changes }))
unfolding find_user
one_account-kept s name user changes found absent =
    elim (Bool-cases (match ascii s.data_of (find_query tools two_guesses name).filter)) [
      | inl e ↦
          let same : s ≡ user = some-inj (ok-inj (rw e at found)) in
          rw (match-merge_rows s.data_of changes name absent) (rw e (rw same refl))
      | inr e ↦ absurd (some-ne-none (ok-inj (sym (rw e at found))))
    ]
  where
    some-ne-none : some user ≡ none → ⊥
    some-ne-none h = cc

pub one_account-KeepsAccounts : KeepsAccounts tools one_account two_guesses
one_account-KeepsAccounts = record { kept = one_account-kept }

abbrev pub oslo_user : Record
oslo_user = record {
  data_of = ("email", text oslo) ∷ ("password_hash", text rome) ∷ [];
  pk_field = "email";
}

pub one_account-KeepsRows : KeepsRows tools one_account two_guesses
unfolding by_pk
one_account-KeepsRows = record {
  kept = λ s subject user changes r found own wrote. rw (some-inj found) refl;
}

-- Links that are the hash they are good for, all of one subject.
abbrev pub signer : Signer
signer = record {
  dumps = λ row. text_of ascii (get row "pw");
  loads = λ token. some (some (("sub", text oslo) ∷ ("pw", text token) ∷ []));
  fingerprint = λ h. h;
}

abbrev pub long_password : Text
long_password = codes "correct horse"

pub new_password-IsDict :
    (password : Text) (must : Bool) (now : ℕ)
    → IsDict (new_password tools two_guesses password must now)
new_password-IsDict password must now = (
  (refl, (refl, (refl, (refl, (refl, tt))))),
  (
    (refl, (refl, (refl, (refl, tt)))),
    ((refl, (refl, (refl, tt))), ((refl, (refl, tt)), ((refl, tt), (tt, tt)))),
  ),
)
