-- ===== src/Providers/Audit/Transparency.antt =====
-- The wrapper of app/providers/audit.py is invisible but for its log.
use crm_starter.Prelude.{ℕ, ◌≡◌, refl, none, some, inl, inr}
use crm_starter.Core.Value.{Text, Value, Runtime, Row}
use crm_starter.Core.Results.{Result-cases}
use crm_starter.Providers.Base.{Provider}
use crm_starter.Providers.Audit.{Trail, Ctx, create, update, update_if, delete}

module _ {ℓ κ} {S : Type ℓ} {L : Type κ} (rt : Runtime) (iso : ℕ → Text) (p : Provider S)
    (trail : Trail L) (ctx : Ctx) (s : S) (log : L) where
  create_passes :
      (payload : Row)
      → ((create rt iso p trail ctx (s, log) payload).0 ≡ (p.create s payload).0)
        × ((create rt iso p trail ctx (s, log) payload).1.0 ≡ (p.create s payload).1)
  unfolding create
  create_passes payload = elim (Result-cases (p.create s payload).0) [
    | inl (result, e) ↦ rw (e, create) (refl, refl)
    | inr (x, e) ↦ rw (e, create) (refl, refl)
  ]

  update_passes :
      (key : Value) (payload : Row)
      → ((update rt iso p trail ctx (s, log) key payload).0 ≡ (p.update s key payload).0)
        × ((update rt iso p trail ctx (s, log) key payload).1.0 ≡ (p.update s key payload).1)
  unfolding update
  update_passes key payload = elim (Result-cases (p.update s key payload).0) [
    | inl (result, e) ↦ rw (e, update) (refl, refl)
    | inr (x, e) ↦ rw (e, update) (refl, refl)
  ]

  update_if_passes :
      (key : Value) (payload expect : Row)
      → ((update_if rt iso p trail ctx (s, log) key payload expect).0
          ≡ (p.update_if s key payload expect).0)
        × ((update_if rt iso p trail ctx (s, log) key payload expect).1.0
            ≡ (p.update_if s key payload expect).1)
  unfolding update_if
  update_if_passes key payload expect = elim (Result-cases (p.update_if s key payload expect).0) [
    | inl (none, e) ↦ rw (e, update_if) (refl, refl)
    | inl (some result, e) ↦ rw (e, update_if) (refl, refl)
    | inr (x, e) ↦ rw (e, update_if) (refl, refl)
  ]

  delete_passes :
      (key : Value)
      → ((delete rt iso p trail ctx (s, log) key).0 ≡ (p.delete s key).0)
        × ((delete rt iso p trail ctx (s, log) key).1.0 ≡ (p.delete s key).1)
  unfolding delete
  delete_passes key = elim (Result-cases (p.delete s key).0) [
    | inl (result, e) ↦ rw (e, delete) (refl, refl)
    | inr (x, e) ↦ rw (e, delete) (refl, refl)
  ]

  -- Whatever the sink does with the entries, and if it fails, each write answers what the wrapped
  -- provider answers, its errors included, and leaves the state that the provider leaves.
  pub writes_pass :
      (key : Value) (payload expect : Row)
      → ((create rt iso p trail ctx (s, log) payload).0 ≡ (p.create s payload).0)
        × ((create rt iso p trail ctx (s, log) payload).1.0 ≡ (p.create s payload).1)
        × ((update rt iso p trail ctx (s, log) key payload).0 ≡ (p.update s key payload).0)
        × ((update rt iso p trail ctx (s, log) key payload).1.0 ≡ (p.update s key payload).1)
        × ((update_if rt iso p trail ctx (s, log) key payload expect).0
            ≡ (p.update_if s key payload expect).0)
        × ((update_if rt iso p trail ctx (s, log) key payload expect).1.0
            ≡ (p.update_if s key payload expect).1)
        × ((delete rt iso p trail ctx (s, log) key).0 ≡ (p.delete s key).0)
        × ((delete rt iso p trail ctx (s, log) key).1.0 ≡ (p.delete s key).1)
  writes_pass key payload expect =
      let (a, b) = create_passes payload in
      let (c, d) = update_passes key payload in
      let (e, f) = update_if_passes key payload expect in
      let (g, h) = delete_passes key in (a, b, c, d, e, f, g, h)
