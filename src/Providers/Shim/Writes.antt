-- ===== src/Providers/Shim/Writes.antt =====
-- The writes of app/providers/shim.py: never emulated, and refused where the backend does not offer
-- them; a conditional write is passed on as it is.
use crm_starter.Prelude.{if◌then◌else◌}
use crm_starter.Core.Results.{raise, unsupported}
use crm_starter.Providers.Base.{Provider}

unfoldable pub guarded {ℓ} : {S : Type ℓ} → Provider S → Provider S
guarded inner = record inner {
  create =
      λ s row. if inner.capabilities.create then inner.create s row else (raise unsupported, s);
  update = λ s key row.
      if inner.capabilities.update then inner.update s key row else (raise unsupported, s);
  delete =
      λ s key. if inner.capabilities.delete then inner.delete s key else (raise unsupported, s);
}
