-- ===== src/Auth/Manage/Reset.antt =====
-- A reset link works once.
use crm_starter.Prelude.{
  ℕ, ◌≡◌, refl, ap, true, false, Option, none, some, List, [], ◌∷◌, Bool-cases, inl, inr, arith,
}
use mathlib.Core.Path.{subst}
use package.text.Mathlib.TextEquality.{eq_iff}
use crm_starter.Prelude.Assoc
use crm_starter.Prelude.Assoc.{IsDict}
use crm_starter.Core.Value.{
  Text, Value, text, Row, Record, get, pk, str, text_eq, py_eq, merge_rows,
}
use crm_starter.Core.Value.Merging.{get-merge_new}
use crm_starter.Core.Value.Equality.{text_eq→eq}
use crm_starter.Core.Results.{Result, ok, raise, WriteResult}
use crm_starter.Auth.Passwords.{Problem}
use crm_starter.Auth.Accounts.{Users, Outside, LocalAuth, answer, refuse, crash, weak}
use crm_starter.Auth.Manage.{
  Signer, is_current, verify, peek_subject, by_pk, store_password, stored_to, problems,
  validate_and_store, redeemed, redeem_for, redeem_reset_token, read_payload, store_if,
  redeem_verified, redeem_account, redeem_peeked, new_password,
}

-- The store takes writes that it does not refuse: a row that was updated is found again under its
-- key, with the changes in it.
pub record KeepsRows {ℓ} {S : Type ℓ} (o : Outside) (u : Users S) (a : LocalAuth) : Type ℓ where
  pub kept :
      (s : S) (subject : Text) (user : Record) (changes : Row) (r : WriteResult)
      → by_pk o u a s subject ≡ some user
      → get changes user.pk_field ≡ none
      → (u.update s (pk user) changes).0 ≡ ok r
      → by_pk o u a (u.update s (pk user) changes).1 subject
        ≡ some (record user { data_of = merge_rows user.data_of changes })

-- A digest of one hash is not that of another.
digest_differs :
    (v : Value) (p q : Text)
    → py_eq v (text p) ≡ true
    → text_eq p q ≡ false
    → py_eq v (text q) ≡ false
unfolding py_eq
digest_differs (text t) p q h k = rw (text_eq→eq t p h) k
digest_differs _ p q h k = cc

is_current_other :
    (g : Signer) (v : Option Value) (stored other : Text)
    → is_current g v stored ≡ true
    → text_eq (g.fingerprint stored) (g.fingerprint other) ≡ false
    → is_current g v other ≡ false
is_current_other g none stored other h k = refl
is_current_other g (some v) stored other h k = digest_differs v _ _ h k

-- A link that is good for one hash is none for another.
read_payload_other :
    (o : Outside) (g : Signer) (loaded : Option (Option Row)) (stored other subject : Text)
    → read_payload o g loaded stored ≡ some subject
    → text_eq (g.fingerprint stored) (g.fingerprint other) ≡ false
    → read_payload o g loaded other ≡ none
read_payload_other o g none stored other subject h k = refl
read_payload_other o g (some none) stored other subject h k = refl
read_payload_other o g (some (some row)) stored other subject h k =
    elim (Bool-cases (is_current g (get row "pw") stored)) [
      | inl c ↦ rw (is_current_other g (get row "pw") stored other c k) refl
      | inr c ↦ absurd (ground (arith, h, c))
    ]

module _ {ℓ} {S : Type ℓ} (o : Outside) (u : Users S) (a : LocalAuth) (g : Signer) where
  of_stored :
      (user : Record) (result : Result WriteResult × S) (found : Option Record) (s' : S)
      → redeemed o u a user (stored_to o u a (answer tt) result) ≡ (answer found, s')
      → (r : WriteResult) × (result.0 ≡ ok r) × (result.1 ≡ s')
  of_stored user (ok r, t) found s' h = (r, refl, ap (λ x. x.1) h)
  of_stored user (raise e, t) found s' h = absurd (crash-ne-answer (ap (λ x. x.0) h))
    where
      crash-ne-answer : crash e ≡ answer found → ⊥
      crash-ne-answer k = cc

  of_problems :
      (s : S) (user : Record) (new : Text) (now : ℕ) (ps : List Problem) (found : Option Record)
      (s' : S)
      → redeemed o u a user (store_if o u a s user new false now ps) ≡ (answer found, s')
      → redeemed o u a user (store_password o u a s user new false now) ≡ (answer found, s')
  of_problems s user new now [] found s' h = h
  of_problems s user new now (p ∷ ps) found s' h = absurd (refuse-ne-answer (ap (λ x. x.0) h))
    where
      refuse-ne-answer : refuse (weak (p ∷ ps)) ≡ answer found → ⊥
      refuse-ne-answer k = cc

  password_written :
      (new : Text) (now : ℕ)
      → get (new_password o a new false now) a.password_field ≡ some (text (o.hash new))
  unfolding Assoc.lookup
  password_written new now = ground (arith, eq_iff a.password_field a.password_field)

  module _ (keeps : KeepsRows o u a) (token new : Text) (now : ℕ)
      (dict : IsDict (new_password o a new false now)) where
    -- An account with the new password takes no link that was signed over the old one.
    spent :
        (s : S) (user : Record) (stored : Text) (subject signed again : Text) (later : ℕ)
        → by_pk o u a s subject
          ≡ some
              (record user { data_of = merge_rows user.data_of (new_password o a new false now) })
        → verify o g token stored ≡ some signed
        → text_eq (g.fingerprint stored) (g.fingerprint (o.hash new)) ≡ false
        → redeem_account o u a g s token again later (by_pk o u a s subject) ≡ (answer none, s)
    unfolding verify
    spent s user stored subject signed again later there good differs =
        rw (there, redeem_account)
          (rw
            (get-merge_new user.data_of (new_password o a new false now) a.password_field
              (text (o.hash new)) dict (password_written new now))
            (rw (read_payload_other o g (g.loads token) stored (o.hash new) signed good differs)
              refl))

    redeemed_once :
        (s : S) (user : Record) (stored : Text) (subject : Text) (signed : Option Text)
        (after : Record) (s' : S) (again : Text) (later : ℕ)
        → by_pk o u a s subject ≡ some user
        → get (new_password o a new false now) user.pk_field ≡ none
        → verify o g token stored ≡ signed
        → text_eq (g.fingerprint stored) (g.fingerprint (o.hash new)) ≡ false
        → redeem_verified o u a s user new now signed ≡ (answer (some after), s')
        → redeem_account o u a g s' token again later (by_pk o u a s' subject) ≡ (answer none, s')
    unfolding validate_and_store store_password
    redeemed_once s user stored subject none after s' again later found own good differs h =
        absurd (none-ne-some (ap (λ x. x.0) h))
      where
        none-ne-some : answer none ≡ answer (some after) → ⊥
        none-ne-some k = cc
    redeemed_once s user stored subject (some signed) after s' again later found own good differs
          h =
        let (r, wrote, same) =
          of_stored user _ (some after) s'
            (of_problems s user new now (problems o a new user) (some after) s' h) in
        subst
          (λ t.
            redeem_account o u a g t token again later (by_pk o u a t subject) ≡ (answer none, t))
          same
          (spent _ user stored subject signed again later
            (keeps.kept s subject user (new_password o a new false now) r found own wrote) good
            differs)

    -- A reset link that set a password is refused from then on, whatever password comes with it,
    -- and writes nothing. The digests of the old hash and the new one differ, the columns of a new
    -- password are distinct and none is the key, and the store takes the write.
    pub redeem_once :
        (s : S) (user : Record) (stored : Value) (subject : Text) (after : Record) (s' : S)
        (again : Text) (later : ℕ)
        → peek_subject o g token ≡ some subject
        → by_pk o u a s subject ≡ some user
        → get user.data_of a.password_field ≡ some stored
        → get (new_password o a new false now) user.pk_field ≡ none
        → text_eq (g.fingerprint (str o.rt stored)) (g.fingerprint (o.hash new)) ≡ false
        → redeem_reset_token o u a g s token new now ≡ (answer (some after), s')
        → redeem_reset_token o u a g s' token again later ≡ (answer none, s')
    unfolding redeem_reset_token
    redeem_once s user stored subject after s' again later peeked found kept own differs h =
        rw peeked (
          redeemed_once s user (str o.rt stored) subject _ after s' again later found own refl
            differs
            (rw (kept, redeem_for) at
              (rw (found, redeem_account) at (rw (peeked, redeem_peeked) at h))))
