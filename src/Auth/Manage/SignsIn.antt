-- ===== src/Auth/Manage/SignsIn.antt =====
-- A password that was set signs in.
use mathlib.Core.Path.{subst}
use package.text.Mathlib.TextEquality.{eq_iff}
use crm_starter.Prelude.{
  ℕ, String, ◌≡◌, refl, ap, Bool, true, false, none, some, List, [], ◌∷◌, if◌then◌else◌, arith,
}
use crm_starter.Prelude.Int.{pos}
use crm_starter.Prelude.Assoc
use crm_starter.Prelude.Assoc.{IsDict}
use crm_starter.Core.Value.{Text, Value, null, num, bool, text, Record, get, pk, merge_rows}
use crm_starter.Core.Value.Merging.{get-merge_new, get-merge_other}
use crm_starter.Core.Results.{Result, ok, raise, WriteResult}
use crm_starter.Core.Placement.{strip}
use crm_starter.Auth.Passwords.{Problem, is_empty}
use crm_starter.Auth.Accounts.{Users, Outside, LocalAuth, answer, refuse, weak}
use crm_starter.Auth.Login.{
  find_user, login, locked_until, check_account, record_success, is_active, flag, to_identity,
  signed_in,
}
use crm_starter.Auth.Login.Guesses.{KeepsAccounts}
use crm_starter.Auth.Manage.{
  by_pk, stored_to, store_password, store_if, problems, validate_and_store, set_password,
  new_password,
}

-- The account after its password was set.
abbrev pub with_password : Outside → LocalAuth → Text → Bool → ℕ → Record → Record
with_password o a new must now user = record user {
  data_of = merge_rows user.data_of (new_password o a new must now);
}

module _ {ℓ} {S : Type ℓ} (o : Outside) (u : Users S) (a : LocalAuth) (new : Text) (must : Bool)
    (now : ℕ) (dict : IsDict (new_password o a new must now)) where
  column :
      (user : Record) (field : String) (v : Value)
      → get (new_password o a new must now) field ≡ some v
      → get (with_password o a new must now user).data_of field ≡ some v
  column user field v h = get-merge_new user.data_of (new_password o a new must now) field v dict h

  password_written : get (new_password o a new must now) a.password_field ≡ some (text (o.hash new))
  unfolding Assoc.lookup
  password_written = ground (arith, eq_iff a.password_field a.password_field)

  must_written : get (new_password o a new must now) "must_change_password" ≡ some (bool must)
  unfolding Assoc.lookup
  must_written = rw (dict.0.1.0) refl

  failed_written : get (new_password o a new must now) "failed_logins" ≡ some (num (pos 0))
  unfolding Assoc.lookup
  failed_written = rw (dict.0.1.1.0) refl

  lock_written : get (new_password o a new must now) "locked_until" ≡ some null
  unfolding Assoc.lookup
  lock_written = rw (dict.0.1.1.1.1.0) refl

  with_password-is_active :
      (user : Record)
      → get (new_password o a new must now) a.active_field ≡ none
      → is_active o a (with_password o a new must now user) ≡ is_active o a user
  unfolding is_active
  with_password-is_active user own =
      rw
        (get-merge_other user.data_of (new_password o a new must now) a.active_field own, is_active)
        refl

  signed_in_new :
      (s : S) (user : Record)
      → signed_in o u a (with_password o a new must now user)
        ≡ record (to_identity o a (with_password o a new must now user)) {
          must_change_password = must;
        }
  unfolding flag
  signed_in_new s user =
      rw (column user "must_change_password" (bool must) must_written, flag) (by_flag must)
    where
      by_flag :
          (b : Bool)
          → (if b
              then record (to_identity o a (with_password o a new must now user)) {
                must_change_password = true;
              }
              else to_identity o a (with_password o a new must now user))
            ≡ record (to_identity o a (with_password o a new must now user)) {
              must_change_password = b;
            }
      by_flag true = refl
      by_flag false = unfold to_identity in refl

  check_new :
      (s : S) (user : Record) (later : ℕ)
      → o.verify (o.hash new) new ≡ true
      → get (new_password o a new must now) a.active_field ≡ none
      → is_active o a user ≡ true
      → (check_account o u a s (with_password o a new must now user) new later).0
        ≡ answer (record (to_identity o a (with_password o a new must now user)) {
          must_change_password = must;
        })
  unfolding check_account record_success
  check_new s user later good own active =
      rw (column user a.password_field (text (o.hash new)) password_written, check_account)
        (rw good (
          rw (with_password-is_active user own) (
            rw active (
              rw (column user "failed_logins" (num (pos 0)) failed_written, record_success)
                (ap answer (signed_in_new s user))))))

  of_stored :
      (result : Result WriteResult × S) (s' : S)
      → stored_to o u a (answer tt) result ≡ (answer tt, s')
      → result.1 ≡ s'
  of_stored (ok r, t) s' h = ap (λ x. x.1) h
  of_stored (raise e, t) s' h = ap (λ x. x.1) h

  of_problems :
      (s : S) (user : Record) (ps : List Problem) (s' : S)
      → store_if o u a s user new must now ps ≡ (answer tt, s')
      → store_password o u a s user new must now ≡ (answer tt, s')
  of_problems s user [] s' h = h
  of_problems s user (p ∷ ps) s' h = absurd (refuse-ne-answer (ap (λ x. x.0) h))
    where
      refuse-ne-answer : refuse (weak (p ∷ ps)) ≡ answer tt → ⊥
      refuse-ne-answer k = cc

  -- A password that was set signs the holder of an active account in at any later time, also if
  -- the account was locked; the identity says whether the password is to be changed as the reset
  -- asked. The store takes writes, the columns of a new password are distinct, and none is that of
  -- the account's name or of its activity; a hash verifies the password that it was made of.
  pub set_password-login :
      (s : S) (user : Record) (subject name : Text) (later : ℕ) (s' : S)
      → KeepsAccounts o u a
      → by_pk o u a s subject ≡ some user
      → find_user o u a s (strip o.rt name) ≡ ok (some user)
      → get (new_password o a new must now) a.identity_field ≡ none
      → get (new_password o a new must now) a.active_field ≡ none
      → is_active o a user ≡ true
      → is_empty (strip o.rt name) ≡ false
      → is_empty new ≡ false
      → o.verify (o.hash new) new ≡ true
      → set_password o u a s subject new must now ≡ (answer tt, s')
      → (login o u a s' name new later).0
        ≡ answer (record (to_identity o a (with_password o a new must now user)) {
          must_change_password = must;
        })
  unfolding set_password validate_and_store store_password login locked_until
  set_password-login s user subject name later s' keeps known found own own_active active named
        some_password good h =
      let same : (u.update s (pk user) (new_password o a new must now)).1 ≡ s' =
        of_stored _ s'
          (of_problems s user (problems o a new user) s' (rw (known, set_password) at h)) in
      let there : find_user o u a s' (strip o.rt name)
          ≡ ok (some (with_password o a new must now user)) =
        subst
          (λ t.
            find_user o u a t (strip o.rt name) ≡ ok (some (with_password o a new must now user)))
          same (keeps.kept s (strip o.rt name) user (new_password o a new must now) found own) in
      rw named (
        rw some_password (
          rw (there, login)
            (rw (column user "locked_until" null lock_written, locked_until)
              (check_new s' user later good own_active active))))
