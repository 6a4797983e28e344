-- ===== src/Providers/Union.antt =====
-- app/providers/union.py: one resource whose rows live in several sources. The sources are asked in
-- order; the pages that they give hold rows whose key column is the union's. Health and warming
-- are left out.
pub mod Aggregate
pub mod Combining
pub mod Stamps
pub mod Keys
pub mod Routing
pub mod Serving
pub mod Paging
pub mod Answers
pub mod Prefixes
pub mod OverShims
use crm_starter.Prelude.{
  ℕ, ◌+◌, Bool, true, false, not, ◌&&◌, ◌||◌, String, Option, none, some, List, [], ◌∷◌, ◌++◌, map,
  any, all, keep, ltb, leb, if◌then◌else◌, length, slice, str_eq, ◌==◌,
}
use crm_starter.Prelude.Assoc
use crm_starter.Prelude.Merge.{concat}
use crm_starter.Core.Value.{Text, Value, text, Runtime, Row, Record, pk, str, text_eq}
use crm_starter.Core.Query.{
  Op, Operand, scalar, sequence, Condition, Filter, Filters, cond, group, not_of, conj, disj, nil,
  cons, and_, ListQuery, Page, Sort, effective_filter, offset, empty_page,
}
use crm_starter.Core.Results.{Error, too_many_rows, unsupported, Result, ok, raise, ◌>>=◌}
use crm_starter.Providers.Base.{Capabilities, Reader, sync, op_eq, all_ops}
use crm_starter.Providers.Local.{apply_sort, run_query}

pub record Source : Type 0 where
  pub label : Text
  pub provider : Reader
  pub get : Value → Result (Option Record)

pub record Union : Type 0 where
  pub sources : List Source
  pub pk_field : String
  pub source_field : String
  pub prefixed : Bool
  pub max_rows : ℕ
  pub searchable_fields : List String

abbrev pub mem : List Text → Text → Bool
mem ls l = any (text_eq l) ls

abbrev pub labels : Union → List Text
labels u = map (λ s. s.label) u.sources

-- Only operators that every source can push down.
unfoldable pub shared_ops : List Source → List Op
shared_ops [] = all_ops
shared_ops (s ∷ sources) =
    keep (λ op. any (op_eq op) s.provider.capabilities.filter_ops) (shared_ops sources)

unfoldable pub capabilities : Union → Capabilities
capabilities u =
    let ops = shared_ops u.sources in
    record {
      read = true;
      write = false;
      create = false;
      update = false;
      delete = false;
      server_filter = not (length ops == 0);
      server_sort = all (λ s. s.provider.capabilities.server_sort) u.sources;
      server_search =
          not (length u.searchable_fields == 0)
          && all (λ s. s.provider.capabilities.server_search) u.sources;
      server_paginate = true;
      total_count = all (λ s. s.provider.capabilities.total_count) u.sources;
      aggregate = true;
      write_mode = sync;
      filter_ops = ops;
      searchable_fields = u.searchable_fields;
    }

unfoldable mutual
  pub mentions : String → Filter → Bool
  mentions field (cond c) = str_eq c.field field
  mentions field (not_of f) = mentions field f
  mentions field (group op fs) = mentions_any field fs

  pub mentions_any : String → Filters → Bool
  mentions_any field nil = false
  mentions_any field (cons f fs) = mentions field f || mentions_any field fs

-- What `str` makes of the value of a condition, and of each value of a collection.
abbrev pub wanted_texts : Runtime → Op → Operand → List Text
wanted_texts rt Op.in_ (sequence vs) = map (str rt) vs
wanted_texts rt Op.not_in (sequence vs) = map (str rt) vs
wanted_texts rt op (sequence vs) = rt.show_list vs ∷ []
wanted_texts rt op (scalar v) = str rt v ∷ []

-- The labels of an operator that can choose sources: `every & wanted` or `every - wanted`.
abbrev pub chosen : Op → List Text → List Text → Result (List Text)
chosen Op.eq wanted every = ok (keep (mem wanted) every)
chosen Op.in_ wanted every = ok (keep (mem wanted) every)
chosen Op.ne wanted every = ok (keep (λ l. not (mem wanted l)) every)
chosen Op.not_in wanted every = ok (keep (λ l. not (mem wanted l)) every)
chosen op wanted every = raise unsupported

-- `_labels_for`: which sources a condition on the source column allows.
unfoldable pub labels_for : Runtime → Union → Condition → Result (List Text)
labels_for rt u c = chosen c.op (wanted_texts rt c.op c.value) (labels u)

-- `allowed & child_allowed`, where None allows every source.
abbrev pub meet : Option (List Text) → Option (List Text) → Option (List Text)
meet none b = b
meet (some a) none = some a
meet (some a) (some b) = some (keep (mem b) a)

abbrev pub add_kept : Option Filter → List Filter → List Filter
add_kept none fs = fs
add_kept (some f) fs = f ∷ fs

-- `_split`: which sources, and which rows of them.
unfoldable mutual
  pub split : Runtime → Union → Filter → Result (Option (List Text) × Option Filter)
  split rt u (cond c) =
      if str_eq c.field u.source_field
      then labels_for rt u c >>= (λ ls. ok (some ls, none))
      else ok (none, some (cond c))
  split rt u (not_of f) =
      if mentions u.source_field (not_of f) then raise unsupported else ok (none, some (not_of f))
  split rt u (group disj fs) =
      if mentions u.source_field (group disj fs)
      then raise unsupported
      else ok (none, some (group disj fs))
  split rt u (group conj fs) = split_all rt u fs >>= (λ r. ok (r.0, and_ (map some r.1)))

  pub split_all : Runtime → Union → Filters → Result (Option (List Text) × List Filter)
  split_all rt u nil = ok (none, [])
  split_all rt u (cons f fs) =
      split rt u f >>= (λ a. split_all rt u fs >>= (λ b. ok (meet a.0 b.0, add_kept a.1 b.1)))

abbrev pub admits : Option (List Text) → Text → Bool
admits none l = true
admits (some ls) l = mem ls l

unfoldable pub split_optional :
    Runtime → Union → Option Filter → Result (Option (List Text) × Option Filter)
split_optional rt u none = ok (none, none)
split_optional rt u (some f) = split rt u f

-- `_route`: the sources to visit, and the filter for them.
abbrev pub visited : Union → Option (List Text) → List Source
visited u allowed = keep (λ s. admits allowed s.label) u.sources

-- `_stamp`: the row with its origin, and with its key under the label when that is asked.
unfoldable pub stamp : Runtime → Union → Text → Row → Row
stamp rt u label row =
    let marked = Assoc.insert u.source_field (text label) row in
    let key = pk (record { data_of = row; pk_field = u.pk_field }) in
    if u.prefixed
    then Assoc.insert u.pk_field (text (label ++ (b':' ∷ str rt key))) marked
    else marked

-- `text.partition(":")`, none where there is no colon.
unfoldable pub partition_colon : Text → Option (Text × Text)
partition_colon [] = none
partition_colon (c ∷ t) =
    let rest = partition_colon t in
    if c == b':'
    then some ([], t)
    else elim rest [ none ↦ none | some (head, tail) ↦ some (c ∷ head, tail) ]

-- `_unprefix`
unfoldable pub unprefix : Runtime → Union → Value → List Source × Value
unprefix rt u key =
    if not u.prefixed then (u.sources, key) else elim (partition_colon (str rt key)) [
      | none ↦ (u.sources, key)
      | some (label, rest) ↦ elim (keep (λ s. text_eq s.label label) u.sources) [
        | [] ↦ (u.sources, key)
        | s ∷ owner ↦ (s ∷ owner, text rest)
      ]
    ]

-- The pages of the sources, each with its label; the first that raises fails them all.
unfoldable pub gather : List Source → ListQuery → Result (List (Text × Page Row))
gather [] q = ok []
gather (s ∷ sources) q =
    s.provider.list q >>= (λ page. gather sources q >>= (λ pages. ok ((s.label, page) ∷ pages)))

unfoldable pub sum_totals : List (Text × Page Row) → Option ℕ
sum_totals [] = some 0
sum_totals ((label, page) ∷ pages) = elim page.total [
  | none ↦ none
  | some t ↦ elim (sum_totals pages) [ none ↦ none | some total ↦ some (t + total) ]
]

abbrev pub needed : ListQuery → ℕ
needed q = offset q + q.page_size

-- The sort keys of a query that the sources have too.
abbrev pub pushed : Union → List Sort → List Sort
pushed u sorts = keep (λ s. not (str_eq s.field u.source_field)) sorts

-- The query for each source: all rows that may be on the page, in the order of the keys that the
-- sources have.
unfoldable pub inner_query : Union → ListQuery → Option Filter → ListQuery
inner_query u q remaining = record q {
  filter = remaining;
  scope = none;
  sort = pushed u q.sort;
  page = 1;
  page_size = needed q;
}

abbrev pub stamped : Runtime → Union → List (Text × Page Row) → List Row
stamped rt u pages = concat (map (λ p. map (stamp rt u p.0) p.1.items) pages)

-- The merge: sorted together, and cut to the page.
unfoldable pub merge : Runtime → Union → ListQuery → List (Text × Page Row) → Page Row
merge rt u q pages =
    let rows = apply_sort rt (stamped rt u pages) q.sort in
    let window = slice (offset q) q.page_size rows in
    let total = sum_totals pages in
    record {
      items = window;
      page = q.page;
      page_size = q.page_size;
      total = total;
      has_more = elim total [
        | some t ↦ some (ltb (offset q + length window) t)
        | none ↦ some (ltb (offset q + q.page_size) (length rows))
      ];
    }

-- The answer once the sources to visit are known.
unfoldable pub list_from :
    Runtime → Union → ListQuery → List Source → Option Filter → Result (Page Row)
list_from rt u q [] remaining = ok (empty_page q)
list_from rt u q (s ∷ sources) remaining =
    if ltb u.max_rows (needed q)
    then raise too_many_rows
    else gather (s ∷ sources) (inner_query u q remaining) >>= (λ pages. ok (merge rt u q pages))

unfoldable pub list : Runtime → Union → ListQuery → Result (Page Row)
list rt u q =
    split_optional rt u (effective_filter q) >>= (λ r. list_from rt u q (visited u r.0) r.1)

-- The first of the sources that has the key.
unfoldable pub first_found : Runtime → Union → List Source → Value → Result (Option Record)
first_found rt u [] key = ok none
first_found rt u (s ∷ sources) key = elim (s.get key) [
  | raise e ↦ raise e
  | ok none ↦ first_found rt u sources key
  | ok (some r) ↦
      ok (some (record { data_of = stamp rt u s.label r.data_of; pk_field = u.pk_field }))
]

unfoldable pub get : Runtime → Union → Value → Result (Option Record)
get rt u key = first_found rt u (unprefix rt u key).0 (unprefix rt u key).1
