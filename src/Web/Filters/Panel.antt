-- ===== src/Web/Filters/Panel.antt =====
-- The filter builder's grammar of app/web/filters.py, and its rewriting into canonical pairs.
use crm_starter.Prelude.{
  ℕ, Bool, ◌||◌, Option, none, some, List, [], ◌∷◌, ◌++◌, map, any, somes, if◌then◌else◌, drop,
  length, ◌==◌, ltb,
}
use crm_starter.Prelude.Sort as Order_by
use crm_starter.Core.Value.{Text, Runtime, text_eq, text_lt}
use crm_starter.Core.Query.{Op}
use crm_starter.Core.Results.{value_error, Result, ok, raise}
use crm_starter.Core.Texts.{partition_on}
use crm_starter.Core.Placement.{strip}
use crm_starter.Providers.Local.{is_prefix}
use crm_starter.Auth.Passwords.{codes, is_empty}
use crm_starter.Web.Filters.{
  Field, Resource, prefix, panel_prefix, parse_op, is_unary, supports, field_named,
}
use crm_starter.Web.Filters.Parsing.{filter_key}

abbrev pub Pairs : Type 0
Pairs = List (Text × Text)

unfoldable pub has_panel_params : Pairs → Bool
has_panel_params items = any (λ p. is_prefix panel_prefix p.0) items

-- The parts of one row of the panel that were sent.
pub record PanelRow : Type 0 where
  pub field : Option Text
  pub op : Option Text
  pub value : Option Text

abbrev pub no_parts : PanelRow
no_parts = record { field = none; op = none; value = none }

-- A part of another name is ignored.
abbrev pub set_part : Text → Text → PanelRow → PanelRow
set_part part v row =
    if text_eq part (codes "field")
    then record row { field = some v }
    else if text_eq part (codes "op")
    then record row { op = some v }
    else if text_eq part (codes "value")
    then record row { value = some v }
    else row

abbrev pub is_part : Text → Bool
is_part part =
    text_eq part (codes "field") || (text_eq part (codes "op") || text_eq part (codes "value"))

abbrev pub PanelRows : Type 0
PanelRows = List (Text × PanelRow)

-- `rows.setdefault(index, {})[part] = value`
unfoldable pub put_part : Text → Text → Text → PanelRows → PanelRows
put_part index part v [] = (index, set_part part v no_parts) ∷ []
put_part index part v ((i, row) ∷ rows) =
    let later = put_part index part v rows in
    if text_eq i index then (i, set_part part v row) ∷ rows else (i, row) ∷ later

-- What the loop does with one pair.
unfoldable pub take_pair : Text × Text → PanelRows × Pairs → PanelRows × Pairs
unfolding put_part
take_pair (key, v) (rows, kept) =
    let (index, part) = partition_on b'.' (drop (length panel_prefix) key) in
    if is_prefix panel_prefix key
    then (if is_part part then put_part index part v rows else rows, kept)
    else if is_prefix prefix key
    then (rows, kept)
    else if text_eq key (codes "page")
    then (rows, kept)
    else (rows, kept ++ (key, v) ∷ [])

unfoldable pub collect : Pairs → PanelRows × Pairs → PanelRows × Pairs
collect [] found = found
collect (p ∷ items) found = collect items (take_pair p found)

abbrev pub text_or_empty : Option Text → Text
text_or_empty none = []
text_or_empty (some t) = t

-- The pair of a field, an operator and a value; no value is none but for what takes none.
abbrev pub pair_for : Field → Op → Text → Option (Text × Text)
pair_for f op v =
    if supports f.supported_ops op
    then (if is_unary op
        then some (filter_key (codes f.name) op, [])
        else if is_empty v
        then none
        else some (filter_key (codes f.name) op, v))
    else none

unfoldable pub canonical_pair : Runtime → Resource → PanelRow → Option (Text × Text)
canonical_pair rt r row = elim (field_named (strip rt (text_or_empty row.field)) r.fields) [
  | none ↦ none
  | some f ↦ elim (parse_op (strip rt (text_or_empty row.op))) [
    | none ↦ none
    | some op ↦ pair_for f op (strip rt (text_or_empty row.value))
  ]
]

-- `str.isdigit` and `int`.
pub record Digits : Type 0 where
  pub is_digit : Text → Bool
  pub parse_nat : Text → Option ℕ

-- `_row_order`: the number of a row, or past the numbered ones by its text.
abbrev pub row_order : Digits → Text → Result (ℕ × Text)
row_order d index =
    if d.is_digit index
    then elim (d.parse_nat index) [ none ↦ raise value_error | some n ↦ ok (n, []) ]
    else ok (1_000_000, index)

unfoldable pub keyed : Digits → PanelRows → Result (List ((ℕ × Text) × PanelRow))
keyed d [] = ok []
keyed d ((index, row) ∷ rows) = elim (row_order d index) [
  | raise e ↦ raise e
  | ok key ↦ elim (keyed d rows) [ raise e ↦ raise e | ok rest ↦ ok ((key, row) ∷ rest) ]
]

abbrev pub order_lt : (ℕ × Text) × PanelRow → (ℕ × Text) × PanelRow → Bool
order_lt ((n, s), x) ((m, t), y) = if n == m then text_lt s t else ltb n m

abbrev pub canonical_rows : Runtime → Resource → List ((ℕ × Text) × PanelRow) → Pairs
canonical_rows rt r rows = somes (map (λ e. canonical_pair rt r e.1) (Order_by.sort order_lt rows))

unfoldable pub canonical_params : Runtime → Digits → Resource → Pairs → Result Pairs
canonical_params rt d r items =
    let (rows, kept) = collect items ([], []) in
    elim (keyed d rows) [
      | raise e ↦ raise e
      | ok numbered ↦ ok (kept ++ canonical_rows rt r numbered)
    ]
