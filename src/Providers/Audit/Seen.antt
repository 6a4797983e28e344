-- ===== src/Providers/Audit/Seen.antt =====
-- The entries of app/providers/audit.py, from what is seen of rows and answers but for their secrets.
use crm_starter.Prelude.{
  ℕ, ◌≡◌, ◌∙◌, refl, sym, ap, false, String, Option, none, some, [], ◌∷◌, if◌then◌else◌, str_eq,
  Bool-cases, inl, inr,
}
use mathlib.Core.Path.{ap₂}
use crm_starter.Prelude.Assoc
use crm_starter.Core.Value.{Text, Value, null, Runtime, Row, Record, pk, merge_rows}
use crm_starter.Core.Results.{Result, ok, raise, WriteResult, WriteStatus}
use crm_starter.Providers.Local.Aggregate.{column}
use crm_starter.Providers.Base.{Provider}
use crm_starter.Providers.Audit.{
  is_sensitive, Changes, diff, picked, changed, created, updated, Action, Ctx, Entry, Trail,
  label_text, or_row, after_write, made_row, label_of, entry, key_of, updating,
}
use crm_starter.Providers.Audit.Secrecy.{struck, strike, column-strike, diff-strike, changed-strike}

-- What is seen of a stored record but for its secrets: its columns and its key.
abbrev pub seen_record : Option Record → Option (Row × Value)
seen_record none = none
seen_record (some r) = some (strike r.data_of, pk r)

abbrev pub seen : WriteResult → WriteStatus × Option (Row × Value)
seen r = (r.status, seen_record r.record_of)

abbrev pub seen_answer : Result WriteResult → Result (WriteStatus × Option (Row × Value))
seen_answer (raise e) = raise e
seen_answer (ok r) = ok (seen r)

abbrev pub seen_claim :
    Result (Option WriteResult) → Result (Option (WriteStatus × Option (Row × Value)))
seen_claim (raise e) = raise e
seen_claim (ok none) = ok none
seen_claim (ok (some r)) = ok (some (seen r))

insert-strike :
    (key : String) (value : Value) (row : Row)
    → strike (Assoc.insert key value row) ≡ Assoc.insert key (struck (key, value)).1 (strike row)
unfolding Assoc.insert
insert-strike key value [] = refl
insert-strike key value ((name, old) ∷ row) = elim (Bool-cases (str_eq name key)) [
  | inl e ↦ rw e refl
  | inr e ↦ rw e (ap (λ r. struck (name, old) ∷ r) (insert-strike key value row))
]

merge_rows-strike :
    (before payload : Row)
    → strike (merge_rows before payload) ≡ merge_rows (strike before) (strike payload)
unfolding merge_rows
merge_rows-strike before [] = refl
merge_rows-strike before ((key, value) ∷ payload) =
    merge_rows-strike (Assoc.insert key value before) payload
    ∙ ap (λ b. merge_rows b (strike payload)) (insert-strike key value before)

or_row-strike : (a b : Row) → or_row (strike a) (strike b) ≡ strike (or_row a b)
or_row-strike [] b = refl
or_row-strike (e ∷ a) b = refl

read_back : Option (Row × Value) → Row → Row
read_back none otherwise = otherwise
read_back (some (row, key)) otherwise = row

read_key : Option (Row × Value) → Value
read_key none = null
read_key (some (row, key)) = key

made-seen :
    (result : WriteResult) (payload : Row)
    → strike (made_row result payload) ≡ read_back (seen result).1 (strike payload)
unfolding read_back
made-seen result payload = go result.record_of
  where
    go :
        (o : Option Record)
        → strike (elim o [ some made ↦ made.data_of | none ↦ payload ])
          ≡ read_back (seen_record o) (strike payload)
    go none = refl
    go (some made) = refl

after-seen :
    (result : WriteResult) (before payload : Row)
    → strike (after_write result before payload)
      ≡ read_back (seen result).1 (merge_rows (strike before) (strike payload))
unfolding read_back
after-seen result before payload = go result.record_of
  where
    go :
        (o : Option Record)
        → strike (elim o [ some stored ↦ stored.data_of | none ↦ merge_rows before payload ])
          ≡ read_back (seen_record o) (merge_rows (strike before) (strike payload))
    go none = merge_rows-strike before payload
    go (some stored) = refl

module _ {ℓ κ} {S : Type ℓ} {L : Type κ} (rt : Runtime) (iso : ℕ → Text) (p : Provider S)
    (trail : Trail L) (ctx : Ctx) (plain_label : is_sensitive trail.label_field ≡ false) where
  abbrev pub label_of_row : Row → Text
  label_of_row = label_of rt iso p trail ctx

  abbrev pub entry_of : Action → WriteStatus → Value → Changes → Text → Entry
  entry_of = entry rt iso p trail ctx

  pub label-strike : (row : Row) → label_of_row (strike row) ≡ label_of_row row
  label-strike row =
      ap (λ v. if str_eq trail.label_field "" then [] else label_text rt v)
        (column-strike row trail.label_field plain_label)

  key-seen : (result : WriteResult) → key_of rt iso p trail ctx result ≡ read_key (seen result).1
  unfolding read_key
  key-seen result = go result.record_of
    where
      go :
          (o : Option Record)
          → elim o [ none ↦ null | some made ↦ pk made ] ≡ read_key (seen_record o)
      go none = refl
      go (some made) = refl

  changed-payload :
      (before payload after : Row)
      → changed rt iso before (strike payload) after ≡ changed rt iso before payload after
  unfolding changed
  changed-payload [] payload after = refl
  changed-payload (e ∷ before) payload after = ap (diff rt iso (e ∷ before)) (names payload)
    where
      names : (d : Row) → picked (strike d) after ≡ picked d after
      names [] = refl
      names ((key, value) ∷ d) = ap (λ r. (key, column after key) ∷ r) (names d)

  -- The entries, of what is seen but for the secrets.
  pub created_entry : WriteStatus × Option (Row × Value) → Row → Entry
  created_entry (status, back) payload =
      let row = read_back back payload in
      entry_of created status (read_key back) (diff rt iso [] row) (label_of_row row)

  pub updated_entry : Row → Value → Row → WriteStatus × Option (Row × Value) → Entry
  updated_entry before key payload (status, back) =
      let row = read_back back (merge_rows before payload) in
      entry_of updated status key (changed rt iso before payload row)
        (label_of_row (or_row row before))

  pub created-seen :
      (result : WriteResult) (payload : Row)
      → entry_of created result.status
          (key_of rt iso p trail ctx result)
          (diff rt iso [] (made_row result payload))
          (label_of_row (made_row result payload))
        ≡ created_entry (seen result) (strike payload)
  unfolding created_entry
  created-seen result payload =
      let row = made_row result payload in
      ap₂ (λ key shown. entry_of created result.status key (diff rt iso [] row) shown)
        (key-seen result) (sym (label-strike row))
      ∙ ap
          (λ changes.
            entry_of created result.status (read_key (seen result).1) changes
              (label_of_row (strike row)))
          (sym (diff-strike rt iso [] row))
      ∙ ap
          (λ r.
            entry_of created result.status (read_key (seen result).1) (diff rt iso [] r)
              (label_of_row r))
          (made-seen result payload)

  pub updating-seen :
      (before : Row) (key : Value) (payload : Row) (result : WriteResult)
      → updating rt iso p trail ctx before key payload result
        ≡ updated_entry (strike before) key (strike payload) (seen result)
  unfolding updating updated_entry
  updating-seen before key payload result =
      let row = after_write result before payload in
      ap₂ (λ changes shown. entry_of updated result.status key changes shown)
        (sym (changed-strike rt iso before payload row)
          ∙ sym (changed-payload (strike before) payload (strike row)))
        (sym (label-strike (or_row row before)) ∙ ap label_of_row (sym (or_row-strike row before)))
      ∙ ap
          (λ r.
            entry_of updated result.status key (changed rt iso (strike before) (strike payload) r)
              (label_of_row (or_row r (strike before))))
          (after-seen result before payload)
