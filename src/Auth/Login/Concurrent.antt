-- ===== src/Auth/Login/Concurrent.antt =====
-- Wrong guesses that all read the account before any of them writes count as one.
use crm_starter.Prelude.{ℕ, suc, ◌<◌, ◌≡◌, refl, ◌∙◌, Option, none, some, List, [], ◌∷◌, All}
use mathlib.Core.Path.{subst}
use crm_starter.Prelude.Int.{pos}
use crm_starter.Core.Value.{Text, Record, pk, merge_rows}
use crm_starter.Core.Value.Merging.{get-merge_other}
use crm_starter.Core.Results.{ok}
use crm_starter.Auth.Accounts.{Users, Outside, LocalAuth}
use crm_starter.Auth.Login.{find_user, record_failure, failure_changes}
use crm_starter.Auth.Login.Guesses.{
  IsOther, get-failure_changes, KeepsAccounts, Within, Counted, lock_after, merge_rows-Counted,
  failure_recorded,
}

module _ {ℓ} {S : Type ℓ} (o : Outside) (u : Users S) (a : LocalAuth) where
  -- Failures noted at the given instants, for an account as it was read before the first of them.
  unfoldable pub note_all : S → Record → List ℕ → S
  note_all s user [] = s
  note_all s user (now ∷ nows) = note_all (record_failure o u a s user now).1 user nows

  module _ (keeps : KeepsAccounts o u a) (own_identity : IsOther a.identity_field) (name : Text)
      (user : Record) (k : ℕ) (last : Option ℕ) (c : Counted o k last none user.data_of)
      (on : 0 < a.lockout.max_attempts) where
    -- The account after a failure was noted at the instant.
    abbrev pub noted : Record → ℕ → Record
    noted current now = record current {
      data_of =
          merge_rows current.data_of
            (failure_changes (pos (suc k), lock_after a.lockout (suc k) now) now);
    }

    -- The row that is found under the name is the one that was read, but for the count.
    pub record IsAccount (s : S) (current : Record) : Type ℓ where
      pub found : find_user o u a s name ≡ ok (some current)
      pub same_key : pk current ≡ pk user
      pub own_key : IsOther current.pk_field

    pk-noted :
        (current : Record) (now : ℕ)
        → IsOther current.pk_field
        → pk (noted current now) ≡ pk current
    pk-noted current now own =
        rw
          (
            get-merge_other current.data_of
                (failure_changes (pos (suc k), lock_after a.lockout (suc k) now) now)
                current.pk_field (get-failure_changes _ _ now own),
            pk,
          )
          refl

    noted-IsAccount :
        (s : S) (current : Record) (now : ℕ)
        → IsAccount s current
        → Within a.lockout last now
        → IsAccount (record_failure o u a s user now).1 (noted current now)
    noted-IsAccount s current now at within =
        let changes = failure_changes (pos (suc k), lock_after a.lockout (suc k) now) now in
        rw (failure_recorded o u a s user k now last on c within) (record {
          found =
              subst
                (λ key.
                  find_user o u a (u.update s key changes).1 name ≡ ok (some (noted current now)))
                at.same_key
                (keeps.kept s name current changes at.found
                  (get-failure_changes _ _ now own_identity));
          same_key = pk-noted current now at.own_key ∙ at.same_key;
          own_key = at.own_key;
        })

    -- However many wrong guesses read an account before any of them writes, the account that they
    -- leave has one failure more than they read, that of the last to write; so they lock it only if
    -- one failure more locks it. All lie within the window, and the store takes writes.
    pub parallel_guesses :
        (s : S) (current : Record) (nows : List ℕ) (now : ℕ)
        → IsAccount s current
        → All (Within a.lockout last) nows
        → Within a.lockout last now
        → (after : Record) × (find_user o u a
              (record_failure o u a (note_all s user nows) user now).1
              name
            ≡ ok (some after))
          × Counted o (suc k) (some now) (lock_after a.lockout (suc k) now) after.data_of
    unfolding note_all
    parallel_guesses s current [] now at within end = (
      noted current now,
      (noted-IsAccount s current now at end).found,
      merge_rows-Counted o current.data_of k now (lock_after a.lockout (suc k) now),
    )
    parallel_guesses s current (t ∷ nows) now at within end =
        parallel_guesses (record_failure o u a s user t).1 (noted current t) nows now
          (noted-IsAccount s current t at within.0) within.1 end
