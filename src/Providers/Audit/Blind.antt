-- ===== src/Providers/Audit/Blind.antt =====
-- The entries that app/providers/audit.py writes do not tell two runs apart that differ in secrets.
use crm_starter.Prelude.{ℕ, ◌≡◌, ◌∙◌, refl, sym, ap, false, Option, none, some, inl, inr}
use mathlib.Core.Path.{ap₂}
use crm_starter.Core.Value.{Text, Value, Runtime, Row}
use crm_starter.Core.Results.{Result, ok, raise, WriteStatus, Result-cases}
use crm_starter.Providers.Base.{Provider}
use crm_starter.Providers.Audit.{
  is_sensitive, read, gone, deleted, Ctx, Trail, put, safe_get, create, update, update_if, delete,
}
use crm_starter.Providers.Audit.Secrecy.{strike, gone-strike}
use crm_starter.Providers.Audit.Seen.{
  seen_answer, seen_claim, label_of_row, entry_of, created_entry, updated_entry, created-seen,
  updating-seen, label-strike,
}

-- Two runs of a provider, in two states and with two payloads, that differ in no more than the values
-- of sensitive columns: so do the payloads, the rows that are read before a write, and the rows that
-- the writes answer.
pub record Alike {ℓ} {S : Type ℓ} (p : Provider S) (s s' : S) (key : Value) (payload payload' : Row)
    (expect expect' : Row) : Type 0 where
  pub payloads : strike payload ≡ strike payload'
  pub reads : strike (read (p.get s key)) ≡ strike (read (p.get s' key))
  pub creates : seen_answer (p.create s payload).0 ≡ seen_answer (p.create s' payload').0
  pub updates : seen_answer (p.update s key payload).0 ≡ seen_answer (p.update s' key payload').0
  pub claims :
      seen_claim (p.update_if s key payload expect).0
      ≡ seen_claim (p.update_if s' key payload' expect').0
  pub deletes : seen_answer (p.delete s key).0 ≡ seen_answer (p.delete s' key).0

module _ {ℓ κ} {S : Type ℓ} {L : Type κ} (rt : Runtime) (iso : ℕ → Text) (p : Provider S)
    (trail : Trail L) (ctx : Ctx) (plain_label : is_sensitive trail.label_field ≡ false) where
  created_log : Result (WriteStatus × Option (Row × Value)) → Row → L → L
  created_log (raise e) payload log = log
  created_log (ok r) payload log =
      put rt iso p trail ctx (created_entry rt iso p trail ctx plain_label r payload) log

  updated_log : Result (WriteStatus × Option (Row × Value)) → Row → Value → Row → L → L
  updated_log (raise e) before key payload log = log
  updated_log (ok r) before key payload log =
      put rt iso p trail ctx (updated_entry rt iso p trail ctx plain_label before key payload r) log

  claimed_log : Result (Option (WriteStatus × Option (Row × Value))) → Row → Value → Row → L → L
  claimed_log (raise e) before key payload log = log
  claimed_log (ok none) before key payload log = log
  claimed_log (ok (some r)) before key payload log =
      put rt iso p trail ctx (updated_entry rt iso p trail ctx plain_label before key payload r) log

  deleted_log : Result (WriteStatus × Option (Row × Value)) → Row → Value → L → L
  deleted_log (raise e) before key log = log
  deleted_log (ok r) before key log =
      put rt iso p trail ctx
        (entry_of rt iso p trail ctx plain_label deleted r.0 key (gone rt iso before)
          (label_of_row rt iso p trail ctx plain_label before))
        log

  create-seen :
      (s : S) (log : L) (payload : Row)
      → (create rt iso p trail ctx (s, log) payload).1.1
        ≡ created_log (seen_answer (p.create s payload).0) (strike payload) log
  unfolding created_log create put
  create-seen s log payload = elim (Result-cases (p.create s payload).0) [
    | inl (result, e) ↦
        rw (e, create)
          (ap (λ x. put rt iso p trail ctx x log)
            (created-seen rt iso p trail ctx plain_label result payload))
    | inr (x, e) ↦ rw (e, create) refl
  ]

  update-seen :
      (s : S) (log : L) (key : Value) (payload : Row)
      → (update rt iso p trail ctx (s, log) key payload).1.1
        ≡ updated_log
            (seen_answer (p.update s key payload).0)
            (strike (safe_get rt iso p trail ctx s key))
            key
            (strike payload)
            log
  unfolding updated_log update put
  update-seen s log key payload = elim (Result-cases (p.update s key payload).0) [
    | inl (result, e) ↦
        rw (e, update)
          (ap (λ x. put rt iso p trail ctx x log)
            (updating-seen rt iso p trail ctx plain_label (safe_get rt iso p trail ctx s key) key
              payload result))
    | inr (x, e) ↦ rw (e, update) refl
  ]

  update_if-seen :
      (s : S) (log : L) (key : Value) (payload expect : Row)
      → (update_if rt iso p trail ctx (s, log) key payload expect).1.1
        ≡ claimed_log
            (seen_claim (p.update_if s key payload expect).0)
            (strike (safe_get rt iso p trail ctx s key))
            key
            (strike payload)
            log
  unfolding claimed_log update_if put
  update_if-seen s log key payload expect =
      elim (Result-cases (p.update_if s key payload expect).0) [
        | inl (none, e) ↦ rw (e, update_if) refl
        | inl (some result, e) ↦
            rw (e, update_if)
              (ap (λ x. put rt iso p trail ctx x log)
                (updating-seen rt iso p trail ctx plain_label (safe_get rt iso p trail ctx s key)
                  key payload result))
        | inr (x, e) ↦ rw (e, update_if) refl
      ]

  delete-seen :
      (s : S) (log : L) (key : Value)
      → (delete rt iso p trail ctx (s, log) key).1.1
        ≡ deleted_log
            (seen_answer (p.delete s key).0)
            (strike (safe_get rt iso p trail ctx s key))
            key
            log
  unfolding deleted_log delete put gone
  delete-seen s log key = elim (Result-cases (p.delete s key).0) [
    | inl (result, e) ↦
        rw (e, delete)
          (ap₂
            (λ changes shown.
              put rt iso p trail ctx
                (entry_of rt iso p trail ctx plain_label deleted result.status key changes shown)
                log)
            (sym (gone-strike rt iso (safe_get rt iso p trail ctx s key)))
            (sym (label-strike rt iso p trail ctx plain_label (safe_get rt iso p trail ctx s key))))
    | inr (x, e) ↦ rw (e, delete) refl
  ]

  -- Two runs of a create, of an update, of a conditional update or of a delete leave the same log if
  -- their payloads, the rows that are read before the write and the answers of the provider differ in
  -- no more than the values of sensitive columns. The column of the label is not a sensitive one.
  pub secrets_kept :
      (s s' : S) (log : L) (key : Value) (payload payload' expect expect' : Row)
      → Alike p s s' key payload payload' expect expect'
      → ((create rt iso p trail ctx (s, log) payload).1.1
          ≡ (create rt iso p trail ctx (s', log) payload').1.1)
        × ((update rt iso p trail ctx (s, log) key payload).1.1
            ≡ (update rt iso p trail ctx (s', log) key payload').1.1)
        × ((update_if rt iso p trail ctx (s, log) key payload expect).1.1
            ≡ (update_if rt iso p trail ctx (s', log) key payload' expect').1.1)
        × ((delete rt iso p trail ctx (s, log) key).1.1
            ≡ (delete rt iso p trail ctx (s', log) key).1.1)
  secrets_kept s s' log key payload payload' expect expect' alike = (
    create-seen s log payload
        ∙ ap₂ (λ answer d. created_log answer d log) alike.creates alike.payloads
        ∙ sym (create-seen s' log payload'),
    update-seen s log key payload
        ∙ ap (λ b. updated_log (seen_answer (p.update s key payload).0) b key (strike payload) log)
            alike.reads
        ∙ ap₂ (λ answer d. updated_log answer (strike (read (p.get s' key))) key d log)
            alike.updates alike.payloads
        ∙ sym (update-seen s' log key payload'),
    update_if-seen s log key payload expect
        ∙ ap
            (λ b.
              claimed_log (seen_claim (p.update_if s key payload expect).0) b key (strike payload)
                log)
            alike.reads
        ∙ ap₂ (λ answer d. claimed_log answer (strike (read (p.get s' key))) key d log) alike.claims
            alike.payloads
        ∙ sym (update_if-seen s' log key payload' expect'),
    delete-seen s log key
        ∙ ap₂ (λ answer b. deleted_log answer b key log) alike.deletes alike.reads
        ∙ sym (delete-seen s' log key),
  )
