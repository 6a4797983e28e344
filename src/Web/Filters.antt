-- ===== src/Web/Filters.antt =====
-- app/web/filters.py: filters and sorts in a query string, whose pairs are given in order.
pub mod Parsing
pub mod Panel
pub mod Safety
pub mod RoundTrip
pub mod Redirects
use crm_starter.Prelude.{
  ℕ, ◌+◌, ◌-◌, ◌≡◌, Bool, true, false, not, ◌&&◌, ◌||◌, String, Option, none, some, List, [], ◌∷◌,
  ◌++◌, map, any, somes, if◌then◌else◌, ltb, drop, length, ◌==◌,
}
use crm_starter.Core.Value.{Text, Value, Runtime, null, text, date, datetime, text_eq}
use crm_starter.Core.Query.{
  Op, is_sequence_op, Operand, scalar, sequence, Condition, make_condition, Filter, cond, and_,
  Sort, SortDir, asc, desc,
}
use crm_starter.Core.Results.{Result, ok, raise}
use crm_starter.Core.Texts.{split_on, partition_underscores}
use crm_starter.Core.Placement.{strip}
use crm_starter.Providers.Local.{is_prefix}
use crm_starter.Auth.Passwords.{codes, is_empty}
use crm_starter.Resources.Policy.{Identity, has_role}

-- A field of a resource, as filters and sorts use it. `to_python` reads a value, gives nothing for
-- `EMPTY`, and may raise.
pub record Field : Type 0 where
  pub name : String
  pub read_roles : List String
  pub supported_ops : List Op
  pub sortable : Bool
  pub to_python : Value → Result (Option Value)

-- The fields of a resource and its own aliases for values.
pub record Resource : Type 0 where
  pub fields : List Field
  pub aliases : List (Text × (Identity → Value))

-- The clock and the calendar: now, the day in the zone of a caller, and days in its week, month
-- and year.
pub record Calendar : Type 0 where
  pub now : ℕ
  pub today : Identity → ℕ
  pub weekday : ℕ → ℕ
  pub month_start : ℕ → ℕ
  pub month_end : ℕ → ℕ
  pub year_start : ℕ → ℕ

abbrev pub prefix : Text
prefix = codes "f."

abbrev pub panel_prefix : Text
panel_prefix = codes "fc."

abbrev pub separator : Text
separator = codes "__"

abbrev pub op_name : Op → Text
op_name Op.eq = codes "eq"
op_name Op.ne = codes "ne"
op_name Op.lt = codes "lt"
op_name Op.lte = codes "lte"
op_name Op.gt = codes "gt"
op_name Op.gte = codes "gte"
op_name Op.in_ = codes "in"
op_name Op.not_in = codes "not_in"
op_name Op.contains = codes "contains"
op_name Op.icontains = codes "icontains"
op_name Op.startswith = codes "startswith"
op_name Op.endswith = codes "endswith"
op_name Op.is_null = codes "is_null"
op_name Op.not_null = codes "not_null"
op_name Op.between = codes "between"

abbrev pub all_ops : List Op
all_ops =
    Op.eq ∷ Op.ne ∷ Op.lt ∷ Op.lte ∷ Op.gt ∷ Op.gte ∷ Op.in_ ∷ Op.not_in ∷ Op.contains
    ∷ Op.icontains ∷ Op.startswith ∷ Op.endswith ∷ Op.is_null ∷ Op.not_null ∷ Op.between ∷ []

unfoldable pub op_among : Text → List Op → Option Op
op_among name [] = none
op_among name (op ∷ ops) =
    let rest = op_among name ops in if text_eq (op_name op) name then some op else rest

-- No name is equality, the common case.
unfoldable pub parse_op : Text → Option Op
unfolding op_among
parse_op [] = some Op.eq
parse_op (c ∷ name) = op_among (c ∷ name) all_ops

abbrev pub is_unary : Op → Bool
is_unary Op.is_null = true
is_unary Op.not_null = true
is_unary _ = false

abbrev pub supports : List Op → Op → Bool
supports ops op = any (λ o. text_eq (op_name o) (op_name op)) ops

abbrev pub is_visible : Identity → Field → Bool
is_visible identity f = elim f.read_roles [ [] ↦ true | r ∷ rs ↦ has_role identity (r ∷ rs) ]

-- `_field_map.get(name)`
unfoldable pub field_named : Text → List Field → Option Field
field_named name [] = none
field_named name (f ∷ fs) =
    let rest = field_named name fs in if text_eq (codes f.name) name then some f else rest

unfoldable pub own_alias : Text → List (Text × (Identity → Value)) → Option (Identity → Value)
own_alias name [] = none
own_alias name ((n, build) ∷ rest) =
    let later = own_alias name rest in if text_eq n name then some build else later

abbrev pub me : Identity → Value
me identity =
    if not identity.is_authenticated
    then null
    else if not (is_empty identity.email)
    then text identity.email
    else if not (is_empty identity.subject)
    then text identity.subject
    else null

abbrev pub week_start : Calendar → ℕ → ℕ
week_start c day = day - c.weekday day

abbrev pub builtin_aliases : Calendar → List (Text × (Identity → Value))
builtin_aliases c =
    (codes "me", me)
    ∷ (codes "now", (λ i. datetime c.now))
    ∷ (codes "today", (λ i. date (c.today i)))
    ∷ (codes "yesterday", (λ i. date (c.today i - 1)))
    ∷ (codes "tomorrow", (λ i. date (c.today i + 1)))
    ∷ (codes "week_start", (λ i. date (week_start c (c.today i))))
    ∷ (codes "week_end", (λ i. date (week_start c (c.today i) + 6)))
    ∷ (codes "month_start", (λ i. date (c.month_start (c.today i))))
    ∷ (codes "month_end", (λ i. date (c.month_end (c.today i))))
    ∷ (codes "year_start", (λ i. date (c.year_start (c.today i))))
    ∷ []

-- A value that is None is UNRESOLVED.
abbrev pub resolved : Value → Option Value
resolved null = none
resolved v = some v

-- The aliases of the resource come first, so that a project can redefine one.
unfoldable pub expand : Runtime → Calendar → Resource → Identity → Text → Option Value
unfolding own_alias
expand rt c r identity name =
    let wanted = rt.casefold (strip rt name) in
    elim (own_alias wanted (r.aliases ++ builtin_aliases c)) [
      | none ↦ none
      | some build ↦ resolved (build identity)
    ]

-- An "@alias" is expanded, "@@" begins a literal "@"; nothing stands for UNRESOLVED.
unfoldable pub resolve_alias : Runtime → Calendar → Resource → Identity → Text → Option Value
unfolding expand
resolve_alias rt c r identity [] = some (text [])
resolve_alias rt c r identity (b ∷ raw) =
    if b == b'@'
    then elim raw [
      | [] ↦ expand rt c r identity []
      | d ∷ rest ↦ if d == b'@' then some (text (d ∷ rest)) else expand rt c r identity (d ∷ rest)
    ]
    else some (text (b ∷ raw))
