-- ===== src/Providers/Composite.antt =====
-- app/providers/composite.py: reads from one provider and writes to another, and a provider whose
-- writes are refused.
pub mod Promises
use crm_starter.Core.Results.{raise, unsupported}
use crm_starter.Providers.Base.{Capabilities, Provider, without_writes}

abbrev pub combined : Capabilities → Capabilities → Capabilities
combined reads writes = record reads {
  create = writes.create;
  update = writes.update;
  write = writes.write;
  delete = writes.delete;
  write_mode = writes.write_mode;
}

unfoldable pub composite {ℓ κ} :
    {S : Type ℓ} {T : Type κ} → Provider S → Provider T → Provider (S × T)
composite reader writer = record {
  capabilities = combined reader.capabilities writer.capabilities;
  list = λ state q. reader.list state.0 q;
  get = λ state key. reader.get state.0 key;
  aggregate = λ state spec. reader.aggregate state.0 spec;
  create =
      λ state row. let (answer, after) = writer.create state.1 row in (answer, (state.0, after));
  update = λ state key row.
      let (answer, after) = writer.update state.1 key row in (answer, (state.0, after));
  update_if = λ state key row expect.
      let (answer, after) = writer.update_if state.1 key row expect in (answer, (state.0, after));
  delete =
      λ state key. let (answer, after) = writer.delete state.1 key in (answer, (state.0, after));
}

unfoldable pub read_only {ℓ} : {S : Type ℓ} → Provider S → Provider S
read_only inner = record inner {
  capabilities = without_writes inner.capabilities;
  create = λ s row. (raise unsupported, s);
  update = λ s key row. (raise unsupported, s);
  update_if = λ s key row expect. (raise unsupported, s);
  delete = λ s key. (raise unsupported, s);
}
