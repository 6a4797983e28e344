-- ===== src/Core/Query.antt =====
-- app/core/query.py: filters, sorts, queries, pages and aggregate specifications.
use crm_starter.Prelude.{
  ℕ, ◌+◌, ◌-◌, ◌*◌, ◌/◌, Bool, true, false, not, ◌&&◌, String, Option, none, some, List, [], ◌∷◌,
  ◌++◌, ltb, leb, ◌==◌, if◌then◌else◌, length, somes, min, max, map,
}
use crm_starter.Core.Value.{Text, Value}

pub data Op : Type 0 where
  eq ne lt lte gt gte in_ not_in contains icontains startswith endswith is_null not_null between :
      Op

-- Operators whose value is a collection.
abbrev pub is_sequence_op : Op → Bool
is_sequence_op Op.in_ = true
is_sequence_op Op.not_in = true
is_sequence_op Op.between = true
is_sequence_op _ = false

-- The value of a condition: a scalar or a collection.
pub data Operand : Type 0 where
  scalar : Value → Operand
  sequence : List Value → Operand

pub record Condition : Type 0 where
  pub field : String
  pub op : Op
  pub value : Operand

-- What `Condition.__post_init__` accepts; for the rest it raises ValueError.
unfoldable pub is_valid_condition : Op → Operand → Bool
is_valid_condition Op.between (sequence vs) = length vs == 2
is_valid_condition op (sequence vs) = true
is_valid_condition op (scalar v) = not (is_sequence_op op)

unfoldable pub make_condition : String → Op → Operand → Option Condition
unfolding is_valid_condition
make_condition field op value =
    if is_valid_condition op value
    then some (record { field = field; op = op; value = value })
    else none

pub data GroupOp : Type 0 where
  conj disj : GroupOp

mutual
  pub data Filter : Type 0 where
    cond : Condition → Filter
    group : GroupOp → Filters → Filter
    not_of : Filter → Filter

  pub data Filters : Type 0 where
    nil : Filters
    cons : Filter → Filters → Filters

abbrev pub of_list : List Filter → Filters
of_list [] = nil
of_list (f ∷ fs) = cons f (of_list fs)

-- No filter, the only one, or a group of them.
abbrev pub collapse : GroupOp → List Filter → Option Filter
collapse op [] = none
collapse op (f ∷ []) = some f
collapse op (f ∷ g ∷ fs) = some (group op (of_list (f ∷ g ∷ fs)))

unfoldable pub and_ : List (Option Filter) → Option Filter
and_ children = collapse conj (somes children)

unfoldable pub or_ : List (Option Filter) → Option Filter
or_ children = collapse disj (somes children)

unfoldable pub not_ : Option Filter → Option Filter
not_ none = none
not_ (some child) = some (not_of child)

unfoldable mutual
  -- The conditions of a filter, depth first.
  pub iter_conditions : Filter → List Condition
  iter_conditions (cond c) = c ∷ []
  iter_conditions (group op fs) = iter_children fs
  iter_conditions (not_of f) = iter_conditions f

  pub iter_children : Filters → List Condition
  iter_children nil = []
  iter_children (cons f fs) = iter_conditions f ++ iter_children fs

abbrev pub conditions_of : Option Filter → List Condition
conditions_of none = []
conditions_of (some f) = iter_conditions f

-- The operators and the field names anywhere in a filter; the source's sets, with repetitions.
unfoldable pub filter_ops : Option Filter → List Op
filter_ops f = map (λ c. c.op) (conditions_of f)

unfoldable pub filter_fields : Option Filter → List String
filter_fields f = map (λ c. c.field) (conditions_of f)

pub data SortDir : Type 0 where
  asc desc : SortDir

pub record Sort : Type 0 where
  pub field : String
  pub dir : SortDir

abbrev pub default_page_size : ℕ
default_page_size = 25

abbrev pub max_page_size : ℕ
max_page_size = 500

-- A page size from a request; `none` and 0 (and what is below 1) ask for the default.
unfoldable pub clamp_page_size : Option ℕ → ℕ → ℕ
clamp_page_size none default = default
clamp_page_size (some value) default = if ltb value 1 then default else min value max_page_size

pub record ListQuery : Type 0 where
  pub filter : Option Filter
  pub scope : Option Filter
  pub search : Option Text
  pub sort : List Sort
  pub page : ℕ
  pub page_size : ℕ
  pub fields : Option (List String)
  pub group_by : Option String
  pub with_total : Bool

abbrev pub default_query : ListQuery
default_query = record {
  filter = none;
  scope = none;
  search = none;
  sort = [];
  page = 1;
  page_size = default_page_size;
  fields = none;
  group_by = none;
  with_total = true;
}

-- What `ListQuery.__post_init__` accepts.
unfoldable pub is_valid_query : ListQuery → Bool
is_valid_query q = leb 1 q.page && leb 1 q.page_size

unfoldable pub effective_filter : ListQuery → Option Filter
unfolding and_
effective_filter q = and_ (q.filter ∷ q.scope ∷ [])

abbrev pub offset : ListQuery → ℕ
offset q = (q.page - 1) * q.page_size

abbrev pub unpaged : ListQuery → ℕ → ListQuery
unpaged q limit = record q { page = 1; page_size = limit }

-- One page of results; `cursor` is passed on and never read here.
pub record Page {ℓ} (A : Type ℓ) : Type ℓ where
  pub items : List A
  pub page : ℕ
  pub page_size : ℕ
  pub total : Option ℕ
  pub has_more : Option Bool

module _ {ℓ} {A : Type ℓ} where
  -- `max(1, -(-total // page_size))`: the quotient is rounded up.
  unfoldable pub total_pages : Page A → Option ℕ
  total_pages p = elim p.total [
    | none ↦ none
    | some total ↦ some (max 1 ((total + p.page_size - 1) / p.page_size))
  ]

  unfoldable pub has_next : Page A → Bool
  unfolding total_pages
  has_next p = elim p.has_more [
    | some more ↦ more
    | none ↦ elim (total_pages p) [ none ↦ false | some pages ↦ ltb p.page pages ]
  ]

  unfoldable pub has_prev : Page A → Bool
  has_prev p = ltb 1 p.page

  unfoldable pub start_index : Page A → ℕ
  start_index p = elim p.items [ [] ↦ 0 | x ∷ xs ↦ (p.page - 1) * p.page_size + 1 ]

  unfoldable pub end_index : Page A → ℕ
  end_index p = (p.page - 1) * p.page_size + length p.items

  unfoldable pub empty_page : ListQuery → Page A
  empty_page q = record {
    items = [];
    page = q.page;
    page_size = q.page_size;
    total = some 0;
    has_more = some false;
  }
