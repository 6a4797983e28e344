-- ===== src/Tests/Audit.antt =====
-- An audited table of three rows.
use crm_starter.Prelude.{◌≡◌, refl, ℕ, true, some, List, [], ◌∷◌, ◌++◌}
use crm_starter.Prelude.Assoc
use crm_starter.Core.Value.{Text, num, text, Row, py_eq, merge_rows}
use crm_starter.Prelude.Int.{pos}
use crm_starter.Core.Results.{ok, raise, value_error, WriteStatus}
use crm_starter.Providers.Memory.{
  drop_row, differs, bump_counter, Memory, get_by_pk, get_row, coerce_pk, put_row, differs,
}
use crm_starter.Providers.Memory as Memory_of
use crm_starter.Providers.Base.{Provider}
use crm_starter.Providers.Audit.{
  audited, Trail, Ctx, Entry, Action, diff, changed, create, update, update_if, delete,
  is_sensitive, put, redacted, updating,
}
use crm_starter.Providers.Audit.Blind.{Alike, secrets_kept}
use crm_starter.Providers.Audit.Transparency.{writes_pass}
use crm_starter.Providers.Composite.{composite, read_only}
use crm_starter.Providers.Composite.Promises.{Keeps, wrapped-Keeps}
use crm_starter.Providers.Shim.Writes.{guarded}
use crm_starter.Tests.Data.{ascii, cities, oslo, rome, row1, parse_nothing}

abbrev pub in_memory : Provider Memory
in_memory = record {
  capabilities = cities.capabilities;
  list = λ m q. ok (Memory_of.list ascii m q);
  aggregate = λ m spec. Memory_of.aggregate ascii (λ v n. v) m spec;
  get = λ m key. ok (get_by_pk parse_nothing m key);
  create = Memory_of.create;
  update = Memory_of.update parse_nothing;
  update_if = Memory_of.update_if parse_nothing;
  delete = Memory_of.delete parse_nothing;
}

abbrev pub iso : ℕ → Text
iso t = b't' ∷ []

-- A log that keeps the entry and fails.
abbrev pub trail : Trail (List Entry)
trail = record {
  resource_name = b'c' ∷ [];
  label_field = "city";
  sink = some (λ log e. (raise value_error, log ++ e ∷ []));
}

abbrev pub ctx : Ctx
ctx = record {
  identity = record {
    subject = b'a' ∷ [];
    email = [];
    display_name = b'A' ∷ [];
    roles = [];
    is_authenticated = true;
  };
  provider = [];
  request_id = [];
  ip = [];
}

abbrev payload : Row
payload = ("city", text oslo) ∷ ("password", text rome) ∷ []

abbrev sent : Entry
sent = record {
  actor = b'a' ∷ [];
  actor_name = b'A' ∷ [];
  actor_provider = [];
  action = Action.updated;
  resource = b'c' ∷ [];
  record_id = some (b'0' ∷ []);
  record_label = oslo;
  changes = ("city", (text rome, text oslo)) ∷ ("password", (redacted, redacted)) ∷ [];
  status = WriteStatus.done;
  request_id = [];
  ip = [];
}

logged : (update ascii iso in_memory trail ctx (cities, []) (num (pos 1)) payload).1.1 ≡ sent ∷ []
unfolding update put updating changed diff is_sensitive Memory_of.update get_by_pk coerce_pk get_row
    put_row py_eq Assoc.lookup Assoc.insert merge_rows
logged = refl

-- The same payload and the same stored row with another password.
abbrev other_payload : Row
other_payload = ("city", text oslo) ∷ ("password", text oslo) ∷ []

abbrev with_secret : Text → Memory
with_secret secret = record cities {
  rows = (num (pos 1), row1 ++ ("token", text secret) ∷ []) ∷ [];
}

alike :
    Alike in_memory (with_secret rome) (with_secret oslo) (num (pos 1)) payload other_payload [] []
unfolding is_sensitive Memory_of.create Memory_of.update Memory_of.update_if Memory_of.delete
    get_by_pk coerce_pk get_row put_row drop_row differs bump_counter py_eq Assoc.lookup
    Assoc.insert merge_rows
alike = record {
  payloads = refl;
  reads = refl;
  creates = refl;
  updates = refl;
  claims = refl;
  deletes = refl;
}

secrets_kept_example :
    ((create ascii iso in_memory trail ctx (with_secret rome, []) payload).1.1
      ≡ (create ascii iso in_memory trail ctx (with_secret oslo, []) other_payload).1.1)
    × ((update ascii iso in_memory trail ctx (with_secret rome, []) (num (pos 1)) payload).1.1
        ≡ (update ascii iso in_memory trail ctx
            (with_secret oslo, [])
            (num (pos 1))
            other_payload).1.1)
    × ((update_if ascii iso in_memory trail ctx (with_secret rome, []) (num (pos 1)) payload []).1.1
        ≡ (update_if ascii iso in_memory trail ctx
            (with_secret oslo, [])
            (num (pos 1))
            other_payload
            []).1.1)
    × ((delete ascii iso in_memory trail ctx (with_secret rome, []) (num (pos 1))).1.1
        ≡ (delete ascii iso in_memory trail ctx (with_secret oslo, []) (num (pos 1))).1.1)
unfolding is_sensitive
secrets_kept_example =
    secrets_kept ascii iso in_memory trail ctx refl (with_secret rome) (with_secret oslo) []
      (num (pos 1)) payload other_payload [] [] alike

writes_pass_example :
    ((create ascii iso in_memory trail ctx (cities, []) payload).0
      ≡ (in_memory.create cities payload).0)
    × ((create ascii iso in_memory trail ctx (cities, []) payload).1.0
        ≡ (in_memory.create cities payload).1)
    × ((update ascii iso in_memory trail ctx (cities, []) (num (pos 1)) payload).0
        ≡ (in_memory.update cities (num (pos 1)) payload).0)
    × ((update ascii iso in_memory trail ctx (cities, []) (num (pos 1)) payload).1.0
        ≡ (in_memory.update cities (num (pos 1)) payload).1)
    × ((update_if ascii iso in_memory trail ctx (cities, []) (num (pos 1)) payload row1).0
        ≡ (in_memory.update_if cities (num (pos 1)) payload row1).0)
    × ((update_if ascii iso in_memory trail ctx (cities, []) (num (pos 1)) payload row1).1.0
        ≡ (in_memory.update_if cities (num (pos 1)) payload row1).1)
    × ((delete ascii iso in_memory trail ctx (cities, []) (num (pos 1))).0
        ≡ (in_memory.delete cities (num (pos 1))).0)
    × ((delete ascii iso in_memory trail ctx (cities, []) (num (pos 1))).1.0
        ≡ (in_memory.delete cities (num (pos 1))).1)
writes_pass_example = writes_pass ascii iso in_memory trail ctx cities [] (num (pos 1)) payload row1

wrapped-Keeps_example :
    Keeps (audited ascii iso (composite in_memory (read_only (read_only in_memory))) trail ctx)
    × Keeps (audited ascii iso (composite in_memory (guarded (read_only in_memory))) trail ctx)
unfolding read_only
wrapped-Keeps_example =
    wrapped-Keeps ascii iso trail ctx in_memory (read_only in_memory) (λ h s key row expect. refl)
