-- ===== src/Providers/Audit/Secrecy.antt =====
-- What the log of app/providers/audit.py keeps of secrets: the model in which the values of the
-- sensitive columns are struck out.
use crm_starter.Prelude.{
  ℕ, ◌≡◌, ◌∙◌, refl, sym, ap, false, String, some, [], ◌∷◌, map, if◌then◌else◌, str_eq, Bool-cases,
  inl, inr,
}
use package.text.Mathlib.TextEquality.{eq_iff}
use crm_starter.Prelude.Assoc
use crm_starter.Core.Value.{Text, Value, null, Runtime, Row}
use crm_starter.Providers.Local.Aggregate.{column}
use crm_starter.Providers.Audit.{is_sensitive, redacted, diff, gone, picked, changed}

-- A row whose secrets are unknown.
abbrev pub struck : String × Value → String × Value
struck e = (e.0, if is_sensitive e.0 then null else e.1)

abbrev pub strike : Row → Row
strike row = map struck row

get-strike :
    (row : Row) (key : String)
    → is_sensitive key ≡ false
    → Assoc.lookup key (strike row) ≡ Assoc.lookup key row
unfolding Assoc.lookup
get-strike [] key h = refl
get-strike ((name, value) ∷ row) key h = elim (Bool-cases (str_eq name key)) [
  | inl e ↦
      rw e
        (ap (λ b. some (if b then null else value)) (ap is_sensitive ((eq_iff name key).0 e) ∙ h))
  | inr e ↦ rw e (get-strike row key h)
]

pub column-strike :
    (row : Row) (key : String) → is_sensitive key ≡ false → column (strike row) key ≡ column row key
column-strike row key h = rw (get-strike row key h, column) refl

module _ (rt : Runtime) (iso : ℕ → Text) where
  pub diff-strike :
      (before after : Row) → diff rt iso before (strike after) ≡ diff rt iso before after
  unfolding diff
  diff-strike before [] = refl
  diff-strike before ((key, new) ∷ after) = elim (Bool-cases (is_sensitive key)) [
    | inl h ↦ rw h (ap (λ c. (key, (redacted, redacted)) ∷ c) (diff-strike before after))
    | inr h ↦ simp (h, diff-strike before after)
  ]

  pub diff-strike_before :
      (before after : Row) → diff rt iso (strike before) after ≡ diff rt iso before after
  unfolding diff
  diff-strike_before before [] = refl
  diff-strike_before before ((key, new) ∷ after) = elim (Bool-cases (is_sensitive key)) [
    | inl h ↦ rw h (ap (λ c. (key, (redacted, redacted)) ∷ c) (diff-strike_before before after))
    | inr h ↦ simp (h, diff-strike_before before after, column-strike before key h)
  ]

  pub gone-strike : (before : Row) → gone rt iso (strike before) ≡ gone rt iso before
  unfolding gone
  gone-strike [] = refl
  gone-strike ((key, value) ∷ before) = elim (Bool-cases (is_sensitive key)) [
    | inl h ↦ simp (h, gone-strike before)
    | inr h ↦ simp (h, gone-strike before)
  ]

  -- A row stored with other secrets is picked from as it was, less the secrets.
  strike-picked :
      (payload after : Row) → strike (picked payload (strike after)) ≡ strike (picked payload after)
  strike-picked [] after = refl
  strike-picked ((key, value) ∷ payload) after = elim (Bool-cases (is_sensitive key)) [
    | inl h ↦ rw h (ap (λ row. (key, null) ∷ row) (strike-picked payload after))
    | inr h ↦ simp (h, strike-picked payload after, column-strike after key h)
  ]

  pub changed-strike :
      (before payload after : Row)
      → changed rt iso (strike before) payload (strike after) ≡ changed rt iso before payload after
  unfolding changed
  changed-strike [] payload after = diff-strike [] after
  changed-strike (e ∷ before) payload after =
      diff-strike_before (e ∷ before) (picked payload (strike after))
      ∙ sym (diff-strike (e ∷ before) (picked payload (strike after)))
      ∙ ap (diff rt iso (e ∷ before)) (strike-picked payload after)
      ∙ diff-strike (e ∷ before) (picked payload after)
