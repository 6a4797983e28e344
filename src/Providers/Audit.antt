-- ===== src/Providers/Audit.antt =====
-- app/providers/audit.py: every write of a provider is put on a log, with what it changed. An entry's
-- text of its changes and the message of its result are left out.
pub mod Secrecy
pub mod Seen
pub mod Blind
pub mod Transparency
use crm_starter.Prelude.{
  ℕ, Bool, true, false, not, String, Option, none, some, List, [], ◌∷◌, any, keep, map, take,
  if◌then◌else◌, str_eq,
}
use crm_starter.Prelude.Assoc
use crm_starter.Core.Value.{
  Text, Value, null, text, date, datetime, Runtime, Row, Record, pk, str, py_eq, merge_rows,
}
use crm_starter.Core.Results.{Result, ok, raise, WriteResult, WriteStatus}
use crm_starter.Providers.Local.Aggregate.{column}
use crm_starter.Providers.Base.{Provider}
use crm_starter.Resources.Policy.{Identity}
use crm_starter.Providers.Stamp.{or_else, label}

abbrev pub sensitive : List String
sensitive =
    "password" ∷ "password_hash" ∷ "token" ∷ "token_hash" ∷ "secret" ∷ "api_key" ∷ "private_key"
    ∷ "access_token" ∷ "refresh_token" ∷ []

unfoldable pub is_sensitive : String → Bool
is_sensitive key = any (str_eq key) sensitive

abbrev pub redacted : Value
redacted = text (b'*' ∷ b'*' ∷ b'*' ∷ [])

-- `isoformat` of an instant is not its `str`.
abbrev pub plain : Runtime → (ℕ → Text) → Value → Value
plain rt iso (date d) = text (rt.show_date d)
plain rt iso (datetime t) = text (iso t)
plain rt iso v = v

-- A column, with its value before and after.
abbrev pub Changes : Type 0
Changes = List (String × (Value × Value))

unfoldable pub diff : Runtime → (ℕ → Text) → Row → Row → Changes
diff rt iso before [] = []
diff rt iso before ((key, new) ∷ after) =
    let rest = diff rt iso before after in
    let old_plain = plain rt iso (column before key) in
    let new_plain = plain rt iso new in
    if is_sensitive key
    then (key, (redacted, redacted)) ∷ rest
    else if py_eq old_plain new_plain
    then rest
    else (key, (old_plain, new_plain)) ∷ rest

-- What a delete records of the row.
unfoldable pub gone : Runtime → (ℕ → Text) → Row → Changes
gone rt iso before =
    map (λ e. (e.0, (plain rt iso e.1, null))) (keep (λ e. not (is_sensitive e.0)) before)

-- The columns of the payload as they are stored.
abbrev pub picked : Row → Row → Row
picked payload after = map (λ e. (e.0, column after e.0)) payload

-- What an update records: the columns of the payload, or all if there was no row to read before.
unfoldable pub changed : Runtime → (ℕ → Text) → Row → Row → Row → Changes
unfolding diff
changed rt iso [] payload after = diff rt iso [] after
changed rt iso (e ∷ before) payload after = diff rt iso (e ∷ before) (picked payload after)

pub data Action : Type 0 where
  created updated deleted : Action

-- The part of the context of a request that the log keeps.
pub record Ctx : Type 0 where
  pub identity : Identity
  pub provider : Text
  pub request_id : Text
  pub ip : Text

pub record Entry : Type 0 where
  pub actor : Text
  pub actor_name : Text
  pub actor_provider : Text
  pub action : Action
  pub resource : Text
  pub record_id : Option Text
  pub record_label : Text
  pub changes : Changes
  pub status : WriteStatus
  pub request_id : Text
  pub ip : Text

-- The wrapper's own settings, and the log, whose failures are dropped. `none` is a sink with no
-- provider.
pub record Trail {ℓ} (L : Type ℓ) : Type ℓ where
  pub resource_name : Text
  pub label_field : String
  pub sink : Option (L → Entry → Result WriteResult × L)

abbrev pub id_text : Runtime → Value → Option Text
id_text rt null = none
id_text rt key = some (str rt key)

-- The value of the label's column, unless it is None or the empty text.
abbrev pub label_text : Runtime → Value → Text
label_text rt null = []
label_text rt v = take 200 (str rt v)

abbrev pub or_row : Row → Row → Row
or_row [] row = row
or_row (e ∷ row) other = e ∷ row

abbrev pub read : Result (Option Record) → Row
read (raise e) = []
read (ok none) = []
read (ok (some found)) = found.data_of

-- The row after a write, or what it must be if the backend does not give it back.
abbrev pub after_write : WriteResult → Row → Row → Row
after_write result before payload = elim result.record_of [
  | some stored ↦ stored.data_of
  | none ↦ merge_rows before payload
]

abbrev pub made_row : WriteResult → Row → Row
made_row result payload = elim result.record_of [ some made ↦ made.data_of | none ↦ payload ]

module _ {ℓ κ} {S : Type ℓ} {L : Type κ} (rt : Runtime) (iso : ℕ → Text) (p : Provider S)
    (trail : Trail L) (ctx : Ctx) where
  abbrev pub label_of : Row → Text
  label_of row =
      if str_eq trail.label_field "" then [] else label_text rt (column row trail.label_field)

  abbrev pub entry : Action → WriteStatus → Value → Changes → Text → Entry
  entry action status key changes shown = record {
    actor = or_else ctx.identity.email ctx.identity.subject;
    actor_name = or_else ctx.identity.display_name (label ctx.identity);
    actor_provider = ctx.provider;
    action = action;
    resource = trail.resource_name;
    record_id = id_text rt key;
    record_label = shown;
    changes = changes;
    status = status;
    request_id = ctx.request_id;
    ip = ctx.ip;
  }

  -- `_record`: the log after the entry was sent, whatever became of it.
  unfoldable pub put : Entry → L → L
  put e log = elim trail.sink [ none ↦ log | some write ↦ (write log e).1 ]

  -- `_safe_get`: the row before a change; nothing if it cannot be read.
  abbrev pub safe_get : S → Value → Row
  safe_get s key = read (p.get s key)

  abbrev pub key_of : WriteResult → Value
  key_of result = elim result.record_of [ none ↦ null | some made ↦ pk made ]

  unfoldable pub create : S × L → Row → Result WriteResult × (S × L)
  unfolding put diff
  create (s, log) payload =
      let (answer, after) = p.create s payload in
      elim answer [
        | raise e ↦ (raise e, (after, log))
        | ok result ↦
            let stored = made_row result payload in
            (
              ok result,
              (
                after,
                put
                    (entry created result.status (key_of result) (diff rt iso [] stored)
                      (label_of stored))
                    log,
              ),
            )
      ]

  -- The entry of an update that was made.
  unfoldable pub updating : Row → Value → Row → WriteResult → Entry
  unfolding changed
  updating before key payload result =
      let stored = after_write result before payload in
      entry updated result.status key (changed rt iso before payload stored)
        (label_of (or_row stored before))

  unfoldable pub update : S × L → Value → Row → Result WriteResult × (S × L)
  unfolding put updating
  update (s, log) key payload =
      let (answer, after) = p.update s key payload in
      elim answer [
        | raise e ↦ (raise e, (after, log))
        | ok result ↦ (ok result, (after, put (updating (safe_get s key) key payload result) log))
      ]

  unfoldable pub update_if : S × L → Value → Row → Row → Result (Option WriteResult) × (S × L)
  unfolding put updating
  update_if (s, log) key payload expect =
      let (answer, after) = p.update_if s key payload expect in
      elim answer [
        | raise e ↦ (raise e, (after, log))
        | ok none ↦ (ok none, (after, log))
        | ok (some result) ↦
            (ok (some result), (after, put (updating (safe_get s key) key payload result) log))
      ]

  unfoldable pub delete : S × L → Value → Result WriteResult × (S × L)
  unfolding put gone
  delete (s, log) key =
      let (answer, after) = p.delete s key in
      let before = safe_get s key in
      elim answer [
        | raise e ↦ (raise e, (after, log))
        | ok result ↦ (
          ok result,
          (after, put (entry deleted result.status key (gone rt iso before) (label_of before)) log),
        )
      ]

  -- The wrapped provider, whose state is the provider's and the log.
  abbrev pub audited : Provider (S × L)
  audited = record {
    capabilities = p.capabilities;
    list = λ state q. p.list state.0 q;
    get = λ state key. p.get state.0 key;
    aggregate = λ state spec. p.aggregate state.0 spec;
    create = create;
    update = update;
    update_if = update_if;
    delete = delete;
  }
