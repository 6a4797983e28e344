-- ===== src/Providers/Composite/Promises.antt =====
-- The wrappers of app/providers/composite.py and app/providers/audit.py refuse what they do not offer.
use crm_starter.Prelude.{ℕ, ◌≡◌, refl, ap, false}
use crm_starter.Core.Value.{Text, Value, Runtime, Row}
use crm_starter.Core.Results.{raise, unsupported}
use crm_starter.Providers.Base.{Provider}
use crm_starter.Providers.Shim.Writes.{guarded}
use crm_starter.Providers.Composite.{composite, read_only}
use crm_starter.Providers.Audit.{Trail, Ctx, audited, create, update, update_if, delete}

-- A write that a provider does not offer is refused, and nothing is written.
pub record Keeps {ℓ} {S : Type ℓ} (p : Provider S) : Type ℓ where
  pub no_create :
      p.capabilities.create ≡ false → (s : S) (row : Row) → p.create s row ≡ (raise unsupported, s)
  pub no_update :
      p.capabilities.update ≡ false
      → (s : S) (key : Value) (row : Row) → p.update s key row ≡ (raise unsupported, s)
  pub no_update_if :
      p.capabilities.update ≡ false
      → (s : S) (key : Value) (row expect : Row)
      → p.update_if s key row expect ≡ (raise unsupported, s)
  pub no_delete :
      p.capabilities.delete ≡ false
      → (s : S) (key : Value) → p.delete s key ≡ (raise unsupported, s)

pub read_only-Keeps {ℓ} : {S : Type ℓ} (p : Provider S) → Keeps (read_only p)
unfolding read_only
read_only-Keeps p = record {
  no_create = λ h s row. refl;
  no_update = λ h s key row. refl;
  no_update_if = λ h s key row expect. refl;
  no_delete = λ h s key. refl;
}

pub composite-Keeps {ℓ κ} :
    {S : Type ℓ} {T : Type κ} (reader : Provider S) (writer : Provider T)
    → Keeps writer
    → Keeps (composite reader writer)
unfolding composite
composite-Keeps reader writer k = record {
  no_create = λ h s row. rw (k.no_create h s.1 row) refl;
  no_update = λ h s key row. rw (k.no_update h s.1 key row) refl;
  no_update_if = λ h s key row expect. rw (k.no_update_if h s.1 key row expect) refl;
  no_delete = λ h s key. rw (k.no_delete h s.1 key) refl;
}

-- The log beside a state that stays.
beside {ℓ κ μ} :
    {A : Type ℓ} {S : Type κ} {L : Type μ} {r : A × S} {e : A} (s : S × L)
    → r ≡ (e, s.0)
    → ◌≡◌ {A = A × (S × L)} (e, (r.1, s.1)) (e, s)
beside {e = e} s h = ap (λ x. (e, (x.1, s.1))) h

pub audited-Keeps {ℓ κ} :
    {S : Type ℓ} {L : Type κ} (rt : Runtime) (iso : ℕ → Text) (p : Provider S) (trail : Trail L)
    (ctx : Ctx)
    → Keeps p
    → Keeps (audited rt iso p trail ctx)
unfolding create update update_if delete
audited-Keeps rt iso p trail ctx k = record {
  no_create = λ h s row. rw (k.no_create h s.0 row, create) (beside s (k.no_create h s.0 row));
  no_update =
      λ h s key row. rw (k.no_update h s.0 key row, update) (beside s (k.no_update h s.0 key row));
  no_update_if = λ h s key row expect.
      rw (k.no_update_if h s.0 key row expect, update_if)
        (beside s (k.no_update_if h s.0 key row expect));
  no_delete = λ h s key. rw (k.no_delete h s.0 key, delete) (beside s (k.no_delete h s.0 key));
}

-- The shim's own writes are refused where the backend does not offer them. A conditional write it
-- passes on, so there the backend's refusal is needed.
pub guarded-Keeps {ℓ} :
    {S : Type ℓ} (p : Provider S)
    → (p.capabilities.update ≡ false
        → (s : S) (key : Value) (row expect : Row)
        → p.update_if s key row expect ≡ (raise unsupported, s))
    → Keeps (guarded p)
unfolding guarded
guarded-Keeps p k = record {
  no_create = λ h s row. rw h refl;
  no_update = λ h s key row. rw h refl;
  no_update_if = λ h s key row expect. k h s key row expect;
  no_delete = λ h s key. rw h refl;
}

-- A write that is not offered is refused, and neither a table nor the log is written, by an audited
-- composite of any reader with any writer that is made read-only, or with any writer behind the
-- shim. For the shim, the writer itself refuses conditional writes if it offers no updates.
pub wrapped-Keeps {ℓ κ μ} :
    {S : Type ℓ} {T : Type κ} {L : Type μ} (rt : Runtime) (iso : ℕ → Text) (trail : Trail L)
    (ctx : Ctx) (reader : Provider S) (writer : Provider T)
    → (writer.capabilities.update ≡ false
        → (s : T) (key : Value) (row expect : Row)
        → writer.update_if s key row expect ≡ (raise unsupported, s))
    → Keeps (audited rt iso (composite reader (read_only writer)) trail ctx)
      × Keeps (audited rt iso (composite reader (guarded writer)) trail ctx)
wrapped-Keeps rt iso trail ctx reader writer k = (
  audited-Keeps rt iso (composite reader (read_only writer)) trail ctx
      (composite-Keeps reader (read_only writer) (read_only-Keeps writer)),
  audited-Keeps rt iso (composite reader (guarded writer)) trail ctx
      (composite-Keeps reader (guarded writer) (guarded-Keeps writer k)),
)
