-- ===== src/Tests/Auth.antt =====
-- Sign-ins against a store with one account.
use crm_starter.Prelude.{
  ℕ, suc, ◌+◌, ◌≡◌, refl, true, false, none, some, [], ◌∷◌, arith, ◌≤◌, ◌<◌, ◌≢◌, length, ◌++◌,
}
use crm_starter.Prelude.Assoc
use crm_starter.Prelude.Assoc.{some-inj}
use crm_starter.Core.Value.{Text, text, Record, py_eq}
use crm_starter.Core.Results.{ok}
use crm_starter.Core.Placement.{strip, lstrip, rstrip}
use crm_starter.Providers.Local.{match_tree, match_condition, match_value, cmp}
use crm_starter.Auth.Lockout.{minutes}
use crm_starter.Auth.Accounts.{locked, refuse}
use crm_starter.Auth.Login.{find_user, login, record_failure}
use crm_starter.Auth.Login.Guesses.{Counted, try_all, guesses_lock}
use crm_starter.Auth.Login.Concurrent.{note_all, parallel_guesses}
use crm_starter.Tests.Data.{ascii, rome, oslo}
use crm_starter.Auth.Accounts.{answer}
use crm_starter.Auth.Login.{to_identity, is_active}
use crm_starter.Auth.Manage.{
  set_password, redeem_reset_token, peek_subject, by_pk, verify, validate_and_store, problems,
  store_password,
}
use crm_starter.Auth.Passwords.{
  check_password, is_repetitive, any_unit, repeat, max_length, is_empty,
}
use crm_starter.Auth.Passwords.Accepted.{accepted}
use crm_starter.Providers.Local.{is_infix}
use crm_starter.Auth.Manage.SignsIn.{with_password, set_password-login}
use crm_starter.Auth.Manage.Reset.{redeem_once}
use crm_starter.Tests.Accounts.{
  tools, one_account, two_guesses, oslo_user, one_account-KeepsAccounts, one_account-KeepsRows,
  new_password-IsDict, signer, long_password,
}

-- Two wrong guesses lock the account, also against the right password.
guesses_lock_example :
    login tools one_account two_guesses
      (try_all tools one_account two_guesses oslo oslo_user ((100, oslo) ∷ (200, oslo) ∷ []))
      oslo
      rome
      300
    ≡ (
      refuse (locked (200 + minutes 15)),
      try_all tools one_account two_guesses oslo oslo_user ((100, oslo) ∷ (200, oslo) ∷ []),
    )
unfolding find_user match_tree match_condition Assoc.lookup rstrip lstrip match_value cmp py_eq
guesses_lock_example =
    guesses_lock tools one_account two_guesses oslo one_account-KeepsAccounts refl refl (text rome)
      (omega arith) refl oslo_user oslo_user 0 none ((100, oslo) ∷ (200, oslo) ∷ []) refl refl
      (record { failures = refl; last_failure = refl; lock = refl }) (omega arith) refl
      ((refl, refl), ((refl, refl), tt)) (tt, (omega arith, tt)) 300 200 rome refl refl
      (omega arith)

-- Three guesses that all read the account first leave one failure.
parallel_guesses_example :
    (after : Record) × (find_user tools one_account two_guesses
        (record_failure tools one_account two_guesses
          (note_all tools one_account two_guesses oslo_user oslo_user (100 ∷ 101 ∷ []))
          oslo_user
          102).1
        oslo
      ≡ ok (some after))
    × Counted tools 1 (some 102) none after.data_of
unfolding find_user match_tree match_condition Assoc.lookup match_value cmp py_eq rstrip lstrip
parallel_guesses_example =
    parallel_guesses tools one_account two_guesses one_account-KeepsAccounts refl oslo oslo_user 0
      none (record { failures = refl; last_failure = refl; lock = refl }) (omega arith) oslo_user
      oslo_user (100 ∷ 101 ∷ []) 102 (record { found = refl; same_key = refl; own_key = refl })
      (tt, (tt, tt)) tt

-- A sign-in with the password that was set.
set_password-login_example :
    (login tools one_account two_guesses
      (set_password tools one_account two_guesses oslo_user oslo long_password true 5).1
      oslo
      long_password
      9).0
    ≡ answer
        (record (to_identity tools two_guesses
          (with_password tools two_guesses long_password true 5 oslo_user)) {
            must_change_password = true;
          })
unfolding find_user match_tree match_condition Assoc.lookup match_value cmp py_eq rstrip lstrip
    by_pk set_password is_active validate_and_store problems check_password is_repetitive any_unit
    store_password
set_password-login_example =
    set_password-login tools one_account two_guesses long_password true 5
      (new_password-IsDict long_password true 5) oslo_user oslo_user oslo oslo 9 _
      one_account-KeepsAccounts refl refl refl refl refl refl refl refl refl

-- A link for the old password is spent by the new one.
redeem_once_example :
    redeem_reset_token tools one_account two_guesses signer
      (redeem_reset_token tools one_account two_guesses signer oslo_user rome long_password 5).1
      rome
      long_password
      9
    ≡ (
      answer none,
      (redeem_reset_token tools one_account two_guesses signer oslo_user rome long_password 5).1,
    )
unfolding redeem_reset_token peek_subject by_pk Assoc.lookup verify py_eq validate_and_store
    problems check_password rstrip lstrip is_repetitive any_unit store_password
redeem_once_example =
    redeem_once tools one_account two_guesses signer one_account-KeepsRows rome long_password 5
      (new_password-IsDict long_password false 5) oslo_user oslo_user (text rome) oslo oslo_user _
      long_password 9 refl refl refl refl refl refl

-- A password that is not refused.
accepted_example :
    (12 ≤ length long_password)
    × (length long_password ≤ max_length)
    × ((k : ℕ) (u tail : Text)
        → 0 < length u
        → length u ≤ 4
        → length tail < length u
        → 3 ≤ suc k
        → strip ascii long_password ≢ repeat (suc k) u ++ tail)
    × (is_empty oslo ≡ false → is_infix oslo long_password ≡ false)
    × (is_empty rome ≡ false → is_infix rome long_password ≡ false)
unfolding check_password rstrip lstrip is_repetitive any_unit
accepted_example = accepted ascii (λ t. t) long_password oslo rome 12 refl
