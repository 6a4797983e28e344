-- ===== src/Providers/Local.antt =====
-- app/providers/local.py: conditions, filters, search, sorting and pages over a list of rows.
pub mod Semantics
pub mod Pipeline
pub mod Order
pub mod Lex
pub mod Commute
pub mod Aggregate
use crm_starter.Prelude.{
  ℕ, ◌+◌, ◌*◌, Bool, true, false, not, ◌&&◌, ◌||◌, String, Option, none, some, List, [], ◌∷◌, ◌++◌,
  ltb, ◌==◌, if◌then◌else◌, length, slice, all, any, keep, map,
}
use crm_starter.Prelude.Sort as Order_by
use crm_starter.Core.Value.{
  Text, Value, Runtime, Row, null, bool, num, text, date, datetime, py_eq, py_lt, str, get, text_eq,
  text_lt,
}
use crm_starter.Core.Query.{
  Op, Operand, scalar, sequence, Condition, GroupOp, conj, disj, Filter, cond, group, not_of,
  Filters, nil, cons, Sort, SortDir, asc, desc, ListQuery, Page, effective_filter, offset,
}

-- Midnight of a date, as an instant.
abbrev midnight : ℕ → ℕ
midnight day = day * 86_400_000_000

pub data Relation : Type 0 where
  eq lt le gt ge : Relation

-- `<=`, where `<` is defined, is the negation of the reversed `<`.
abbrev py_le : Value → Value → Option Bool
py_le a b = elim (py_lt b a) [ none ↦ none | some b_below ↦ some (not b_below) ]

abbrev compare_by : Relation → Value → Value → Option Bool
compare_by eq a b = some (py_eq a b)
compare_by lt a b = py_lt a b
compare_by le a b = py_le a b
compare_by gt a b = py_lt b a
compare_by ge a b = py_le b a

abbrev pub is_prefix : Text → Text → Bool
is_prefix [] t = true
is_prefix (a ∷ s) [] = false
is_prefix (a ∷ s) (b ∷ t) = a == b && is_prefix s t

-- `s in t`.
unfoldable pub is_infix : Text → Text → Bool
is_infix s [] = is_prefix s []
is_infix s (b ∷ t) = is_prefix s (b ∷ t) || is_infix s t

unfoldable pub is_suffix : Text → Text → Bool
is_suffix s [] = text_eq s []
is_suffix s (b ∷ t) = text_eq s (b ∷ t) || is_suffix s t

-- The runs of non-blank characters: `re.findall(r"\S+", s)`.
unfoldable pub words : Runtime → Text → List Text
words rt [] = []
words rt (c ∷ []) = if rt.is_space c then [] else (c ∷ []) ∷ []
words rt (c ∷ d ∷ s) =
    let rest = words rt (d ∷ s) in
    if rt.is_space c
    then rest
    else if rt.is_space d
    then (c ∷ []) ∷ rest
    else elim rest [ [] ↦ (c ∷ []) ∷ [] | w ∷ ws ↦ (c ∷ w) ∷ ws ]

-- `" ".join(parts)`.
abbrev join_words : List Text → Text
join_words [] = []
join_words (w ∷ []) = w
join_words (w ∷ v ∷ ws) = w ++ (32 ∷ join_words (v ∷ ws))

abbrev pub as_text : Runtime → Value → Text
as_text rt null = []
as_text rt v = str rt v

-- Two values made comparable: a date beside an instant becomes midnight, and values of different
-- kinds become texts.
unfoldable pub comparable : Runtime → Value → Value → Value × Value
comparable rt (datetime a) (date b) = (datetime a, datetime (midnight b))
comparable rt (date a) (datetime b) = (datetime (midnight a), datetime b)
comparable rt (bool a) b = (bool a, b)
comparable rt a (bool b) = (a, bool b)
comparable rt (num a) (num b) = (num a, num b)
comparable rt (text a) (text b) = (text a, text b)
comparable rt (date a) (date b) = (date a, date b)
comparable rt (datetime a) (datetime b) = (datetime a, datetime b)
comparable rt null null = (null, null)
comparable rt a b = (text (str rt a), text (str rt b))

-- A TypeError is caught and reads as false.
unfoldable pub cmp : Runtime → Relation → Value → Value → Bool
unfolding comparable
cmp rt rel a b =
    let (left, right) = comparable rt a b in
    elim (compare_by rel left right) [ none ↦ false | some answer ↦ answer ]

abbrev pub is_null : Value → Bool
is_null null = true
is_null v = false

abbrev operands : Operand → List Value
operands (scalar v) = []
operands (sequence vs) = vs

-- `_cmp` against a scalar, or against a list, which no value's kind is: both become texts, unless
-- the value is a bool.
abbrev cmp_operand : Runtime → Relation → Value → Operand → Bool
cmp_operand rt rel value (scalar target) = cmp rt rel value target
cmp_operand rt rel (bool b) (sequence vs) = false
cmp_operand rt rel value (sequence vs) = cmp rt rel (text (str rt value)) (text (rt.show_list vs))

abbrev pub equals : Runtime → Value → Value → Bool
equals rt value target = py_eq value target || cmp rt eq value target

abbrev equals_operand : Runtime → Value → Operand → Bool
equals_operand rt value (scalar target) = equals rt value target
equals_operand rt value (sequence vs) = cmp_operand rt eq value (sequence vs)

abbrev operand_text : Runtime → Operand → Text
operand_text rt (scalar target) = as_text rt target
operand_text rt (sequence vs) = rt.show_list vs

-- `low, high = tuple(target)`; a condition that was constructed has exactly two.
abbrev is_between : Runtime → Value → List Value → Bool
is_between rt value (low ∷ high ∷ []) = cmp rt ge value low && cmp rt le value high
is_between rt value bounds = false

-- One operator on a value that is there.
unfoldable pub match_value : Runtime → Op → Value → Operand → Bool
unfolding cmp is_infix is_suffix
match_value rt Op.eq value t = equals_operand rt value t
match_value rt Op.ne value t = not (equals_operand rt value t)
match_value rt Op.lt value t = not (is_null value) && cmp_operand rt lt value t
match_value rt Op.lte value t = not (is_null value) && cmp_operand rt le value t
match_value rt Op.gt value t = not (is_null value) && cmp_operand rt gt value t
match_value rt Op.gte value t = not (is_null value) && cmp_operand rt ge value t
match_value rt Op.in_ value t = any (equals rt value) (operands t)
match_value rt Op.not_in value t = not (any (equals rt value) (operands t))
match_value rt Op.between value t = is_between rt value (operands t)
match_value rt Op.contains value t = is_infix (operand_text rt t) (as_text rt value)
match_value rt Op.icontains value t =
    is_infix (rt.casefold (operand_text rt t)) (rt.casefold (as_text rt value))
match_value rt Op.startswith value t =
    is_prefix (rt.casefold (operand_text rt t)) (rt.casefold (as_text rt value))
match_value rt Op.endswith value t =
    is_suffix (rt.casefold (operand_text rt t)) (rt.casefold (as_text rt value))
match_value rt Op.is_null value t = is_null value
match_value rt Op.not_null value t = not (is_null value)

-- A column that the row lacks matches `is_null` alone.
abbrev pub match_missing : Op → Bool
match_missing Op.is_null = true
match_missing op = false

unfoldable pub match_condition : Runtime → Row → Condition → Bool
unfolding match_value
match_condition rt row c = elim (get row c.field) [
  | none ↦ match_missing c.op
  | some value ↦ match_value rt c.op value c.value
]

unfoldable mutual
  pub match_tree : Runtime → Row → Filter → Bool
  match_tree rt row (cond c) = match_condition rt row c
  match_tree rt row (not_of f) = not (match_tree rt row f)
  match_tree rt row (group conj fs) = match_all rt row fs
  match_tree rt row (group disj fs) = match_any rt row fs

  pub match_all : Runtime → Row → Filters → Bool
  match_all rt row nil = true
  match_all rt row (cons f fs) = match_tree rt row f && match_all rt row fs

  pub match_any : Runtime → Row → Filters → Bool
  match_any rt row nil = false
  match_any rt row (cons f fs) = match_tree rt row f || match_any rt row fs

abbrev pub match : Runtime → Row → Option Filter → Bool
match rt row none = true
match rt row (some f) = match_tree rt row f

unfoldable pub apply_filter : Runtime → List Row → Option Filter → List Row
apply_filter rt rows none = rows
apply_filter rt rows (some f) = keep (λ row. match_tree rt row f) rows

-- The text that a search looks in.
abbrev pub haystack_parts : Runtime → List String → Row → List Text
haystack_parts rt [] row = []
haystack_parts rt (f ∷ fs) row = elim (get row f) [
  | none ↦ haystack_parts rt fs row
  | some v ↦
      if is_null v
      then haystack_parts rt fs row
      else rt.casefold (as_text rt v) ∷ haystack_parts rt fs row
]

unfoldable pub hit : Runtime → List String → List Text → Row → Bool
unfolding is_infix
hit rt fields terms row =
    let haystack = join_words (haystack_parts rt fields row) in all (λ w. is_infix w haystack) terms

-- The words of a search, if there is anything to search for.
unfoldable pub search_terms : Runtime → Option Text → List String → List Text
unfolding words
search_terms rt none fields = []
search_terms rt (some term) [] = []
search_terms rt (some term) (f ∷ fs) = map rt.casefold (words rt term)

-- Every word must occur; with no word, no term or no field the rows pass unchanged.
unfoldable pub apply_search : Runtime → List Row → Option Text → List String → List Row
unfolding search_terms hit
apply_search rt rows term fields = elim (search_terms rt term fields) [
  | [] ↦ rows
  | w ∷ ws ↦ keep (hit rt fields (w ∷ ws)) rows
]

-- `_SortKey._rank`: ("bool", 0), ("dt", 0), ("num", 0), ("str", 1) and what sorts last, in order.
abbrev pub rank : Option Value → ℕ
rank (some (bool b)) = 0
rank (some (date d)) = 1
rank (some (datetime t)) = 1
rank (some (num n)) = 2
rank (some (text t)) = 3
rank (some null) = 4
rank none = 4

-- `left < right` after `_comparable`, and by text where that raises.
abbrev lt_same_rank : Runtime → Option Value → Option Value → Bool
lt_same_rank rt (some (text a)) (some (text b)) = text_lt (rt.casefold a) (rt.casefold b)
lt_same_rank rt (some a) (some b) =
    let (left, right) = comparable rt a b in
    elim (py_lt left right) [ none ↦ text_lt (str rt a) (str rt b) | some answer ↦ answer ]
lt_same_rank rt a b = false

-- `_SortKey.__lt__`; an absent column is `none`.
unfoldable pub key_lt : Runtime → Option Value → Option Value → Bool
unfolding comparable
key_lt rt a b =
    if rank a == rank b
    then (if rank a == 4 then false else lt_same_rank rt a b)
    else ltb (rank a) (rank b)

-- The order of one sort key; `reverse=True` keeps the order of equal rows.
unfoldable pub row_lt : Runtime → Sort → Row → Row → Bool
unfolding key_lt
row_lt rt spec x y = elim spec.dir [
  | asc ↦ key_lt rt (get x spec.field) (get y spec.field)
  | desc ↦ key_lt rt (get y spec.field) (get x spec.field)
]

-- The last key is applied first, so that the first key wins.
unfoldable pub apply_sort : Runtime → List Row → List Sort → List Row
apply_sort rt rows [] = rows
apply_sort rt rows (spec ∷ sorts) = Order_by.sort (row_lt rt spec) (apply_sort rt rows sorts)

module _ {ℓ} {A : Type ℓ} where
  unfoldable pub paginate : List A → ListQuery → Option ℕ → Page A
  paginate rows q given =
      let total : ℕ = elim given [ none ↦ length rows | some t ↦ t ] in
      let window = slice (offset q) q.page_size rows in
      record {
        items = window;
        page = q.page;
        page_size = q.page_size;
        total = some total;
        has_more = some (ltb (offset q + length window) total);
      }

-- Which stages of `run_query` to apply.
pub record Stages : Type 0 where
  pub do_filter : Bool
  pub do_search : Bool
  pub do_sort : Bool
  pub do_paginate : Bool

abbrev pub all_stages : Stages
all_stages = record { do_filter = true; do_search = true; do_sort = true; do_paginate = true }

-- The stages before the page is cut.
unfoldable pub selected : Runtime → Stages → List String → ListQuery → List Row → List Row
selected rt stages search_fields q rows =
    let filtered = if stages.do_filter then apply_filter rt rows (effective_filter q) else rows in
    let found =
      if stages.do_search then apply_search rt filtered q.search search_fields else filtered in
    if stages.do_sort then apply_sort rt found q.sort else found

-- `given` is a total that the caller knows.
unfoldable pub run_query_given :
    Runtime → Stages → List String → Option ℕ → ListQuery → List Row → Page Row
unfolding selected paginate
run_query_given rt stages search_fields given q rows =
    let result = selected rt stages search_fields q rows in
    if stages.do_paginate then paginate result q given else record {
      items = result;
      page = q.page;
      page_size = q.page_size;
      total = some (elim given [ none ↦ length result | some t ↦ t ]);
      has_more = some false;
    }

-- `run_query`, as it is called: with no total.
unfoldable pub run_query : Runtime → Stages → List String → ListQuery → List Row → Page Row
unfolding run_query_given
run_query rt stages search_fields q rows = run_query_given rt stages search_fields none q rows
