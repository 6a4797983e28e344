-- ===== src/Web/Filters/Parsing.antt =====
-- The canonical grammar of app/web/filters.py: pairs `f.<field>__<op>=<value>`, and sorts.
use crm_starter.Prelude.{
  not, ◌&&◌, Option, none, some, List, [], ◌∷◌, ◌++◌, map, keep, somes, if◌then◌else◌, drop, length,
  ◌==◌,
}
use crm_starter.Core.Value.{Text, Value, Runtime, null}
use crm_starter.Core.Query.{
  Op, is_sequence_op, Operand, scalar, sequence, Condition, make_condition, Filter, cond, and_,
  Sort, SortDir, asc, desc,
}
use crm_starter.Core.Results.{Result, ok, raise}
use crm_starter.Core.Texts.{split_on, partition_underscores}
use crm_starter.Core.Placement.{strip}
use crm_starter.Providers.Local.{is_prefix}
use crm_starter.Auth.Passwords.{is_empty}
use crm_starter.Resources.Policy.{Identity}
use crm_starter.Web.Filters.{
  Field, Resource, Calendar, prefix, separator, op_name, parse_op, is_unary, supports, is_visible,
  field_named, resolve_alias,
}

-- The values of a list, unless one is an alias that nobody defines.
unfoldable pub resolve_all :
    Runtime → Calendar → Resource → Identity → List Text → Option (List Value)
resolve_all rt c r identity [] = some []
resolve_all rt c r identity (raw ∷ raws) = elim (resolve_alias rt c r identity raw) [
  | none ↦ none
  | some v ↦ elim (resolve_all rt c r identity raws) [ none ↦ none | some vs ↦ some (v ∷ vs) ]
]

-- `[to_python(v) for v in values]`, less what is EMPTY.
unfoldable pub read_all : Field → List Value → Result (List Value)
read_all f [] = ok []
read_all f (v ∷ vs) = elim (f.to_python v) [
  | raise e ↦ raise e
  | ok read ↦ elim (read_all f vs) [
    | raise e ↦ raise e
    | ok rest ↦ ok (elim read [ none ↦ rest | some w ↦ w ∷ rest ])
  ]
]

-- `parse_filter_value` of a field, for a scalar; EMPTY and None are no value.
abbrev pub read_scalar : Field → Value → Result (Option Operand)
read_scalar f v = elim (f.to_python v) [
  | raise e ↦ raise e
  | ok none ↦ ok none
  | ok (some null) ↦ ok none
  | ok (some w) ↦ ok (some (scalar w))
]

abbrev pub read_sequence : Field → List Value → Result (Option Operand)
read_sequence f vs = elim (read_all f vs) [ raise e ↦ raise e | ok ws ↦ ok (some (sequence ws)) ]

-- What `Condition` refuses makes no filter.
abbrev pub as_filter : Option Condition → Option Filter
as_filter none = none
as_filter (some k) = some (cond k)

module _ (rt : Runtime) (c : Calendar) (r : Resource) (identity : Identity) where
  -- The value of a condition, or None.
  unfoldable pub parse_value : Field → Op → Text → Result (Option Operand)
  parse_value f op raw =
      if is_unary op
      then ok none
      else if is_sequence_op op
      then elim (resolve_all rt c r identity (map (strip rt) (split_on b',' raw))) [
        | none ↦ ok none
        | some vs ↦ read_sequence f vs
      ]
      else elim (resolve_alias rt c r identity raw) [ none ↦ ok none | some v ↦ read_scalar f v ]

  -- The condition on a value: none, an empty list and a bad number of ends make no condition.
  abbrev pub condition : Field → Op → Option Operand → Option Filter
  condition f op none =
      if is_unary op
      then some (cond (record { field = f.name; op = op; value = scalar null }))
      else none
  condition f op (some (sequence [])) = none
  condition f op (some v) = as_filter (make_condition f.name op v)

  -- The condition of a field and an operator; what cannot be read narrows nothing.
  unfoldable pub parse_condition : Field → Op → Text → Option Filter
  parse_condition f op raw =
      if is_empty raw && not (is_unary op)
      then none
      else elim (parse_value f op raw) [ raise e ↦ none | ok value ↦ condition f op value ]

  -- The field that a pair names, if the caller may see it, with an operator that it supports.
  unfoldable pub target : Text → Text → Option (Field × Op)
  target field_name operator = elim (field_named field_name r.fields) [
    | none ↦ none
    | some f ↦ elim (parse_op operator) [
      | none ↦ none
      | some op ↦
          if is_visible identity f && supports f.supported_ops op then some (f, op) else none
    ]
  ]

  abbrev pub parse_spec : Text × Text → Text → Option Filter
  parse_spec (field_name, operator) raw = elim (target field_name operator) [
    | none ↦ none
    | some (f, op) ↦ parse_condition f op raw
  ]

  unfoldable pub parse_pair : Text × Text → Option Filter
  parse_pair (key, raw) =
      if is_prefix prefix key
      then parse_spec (partition_underscores (drop (length prefix) key)) raw
      else none

  unfoldable pub parse_filters : List (Text × Text) → Option Filter
  parse_filters items = and_ (map parse_pair items)

-- The canonical key of one condition.
unfoldable pub filter_key : Text → Op → Text
filter_key field_name Op.eq = prefix ++ field_name
filter_key field_name op = prefix ++ (field_name ++ (separator ++ op_name op))

abbrev pub without_plus : Text → Text
without_plus [] = []
without_plus (c ∷ t) = if c == b'+' then t else c ∷ t

-- `Sort.parse`: the name of a column, and the direction.
unfoldable pub parse_token : Runtime → Text → Text × SortDir
parse_token rt token = elim (strip rt token) [
  | [] ↦ ([], asc)
  | c ∷ t ↦ if c == b'-' then (t, desc) else (without_plus (c ∷ t), asc)
]

-- `str(sort)`
unfoldable pub show_token : Text → SortDir → Text
show_token name asc = name
show_token name desc = b'-' ∷ name

abbrev pub sort_by : Resource → Text × SortDir → Option Sort
sort_by r (name, dir) = elim (field_named name r.fields) [
  | none ↦ none
  | some f ↦ if f.sortable then some (record { field = f.name; dir = dir }) else none
]

unfoldable pub parse_sort : Runtime → Resource → Text → List Sort
unfolding parse_token
parse_sort rt r raw = somes (
    map (λ token. sort_by r (parse_token rt token))
      (keep (λ t. not (is_empty t)) (map (strip rt) (split_on b',' raw))))
