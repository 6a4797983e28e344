-- ===== src/Providers/Shim.antt =====
-- app/providers/shim.py: what a backend declines is done in Python, within a budget of rows.
pub mod Pushdown
pub mod Stream
pub mod Gather
pub mod Refinement
pub mod Aggregate
pub mod Writes
pub mod Grouping
use crm_starter.Prelude.{
  ℕ, zero, suc, ◌+◌, ◌*◌, Bool, true, false, not, ◌&&◌, ◌||◌, String, Option, none, some, List, [],
  ◌∷◌, ◌++◌, ltb, leb, if◌then◌else◌, length, slice, str_eq,
}
use crm_starter.Core.Value.{Text, Runtime, Row}
use crm_starter.Core.Query.{
  Filter, Sort, ListQuery, Page, effective_filter, filter_ops, offset, unpaged,
}
use crm_starter.Core.Results.{Error, too_many_rows, Result, ok, raise, ◌>>=◌}
use crm_starter.Providers.Local.{Stages, run_query}
use crm_starter.Providers.Base.{Capabilities, Reader, supports_ops, all_ops}

pub record Shim : Type 0 where
  pub inner : Reader
  pub max_rows : ℕ
  pub max_scan_rows : ℕ
  pub search_fields : List String

abbrev pub scan_chunk : ℕ
scan_chunk = 500

abbrev pub has_search : Option Text → Bool
has_search none = false
has_search (some []) = false
has_search (some (c ∷ t)) = true

abbrev pub has_filter : Option Filter → Bool
has_filter none = false
has_filter (some f) = true

abbrev pub has_items {ℓ} : {A : Type ℓ} → List A → Bool
has_items [] = false
has_items (x ∷ xs) = true

abbrev pub fields_eq : List String → List String → Bool
fields_eq [] [] = true
fields_eq (a ∷ s) (b ∷ t) = str_eq a b && fields_eq s t
fields_eq _ _ = false

-- What the shim offers: all that it can cover; writes pass through as they are.
unfoldable pub advertised : List String → Capabilities → Capabilities
advertised search_fields inner = record inner {
  server_filter = true;
  server_sort = true;
  server_search = has_items search_fields || inner.server_search;
  server_paginate = true;
  total_count = true;
  aggregate = true;
  filter_ops = all_ops;
}

-- Which stages of a query the backend is asked to do.
pub record Pushed : Type 0 where
  pub filter : Bool
  pub search : Bool
  pub sort : Bool
  pub page : Bool

unfoldable pub pushed : Shim → ListQuery → Pushed
pushed s q =
    let caps = s.inner.capabilities in
    let push_filter = supports_ops caps (filter_ops (effective_filter q)) in
    let push_search =
      has_search q.search
      && (caps.server_search
          && (fields_eq caps.searchable_fields s.search_fields && has_items s.search_fields)) in
    let push_sort = caps.server_sort && has_items q.sort in
    record {
      filter = push_filter;
      search = push_search;
      sort = push_sort;
      page =
          caps.server_paginate
          && (push_filter && (push_sort && (push_search || not (has_search q.search))));
    }

-- The query for the backend, less what is done here.
unfoldable pub inner_query : Shim → ListQuery → Pushed → ListQuery
inner_query s q push =
    let filtered = if push.filter then q else record q { filter = none; scope = none } in
    let searched = if push.search then filtered else record filtered { search = none } in
    let sorted = if push.sort then searched else record searched { sort = [] } in
    if push.page then sorted else unpaged sorted (s.max_rows + 1)

abbrev pub local_stages : Pushed → Bool → Bool → Stages
local_stages push do_sort do_paginate = record {
  do_filter = not push.filter;
  do_search = not push.search;
  do_sort = do_sort;
  do_paginate = do_paginate;
}

-- Whether the query can be answered by scanning: something to filter or search here, nothing to
-- sort, no total wanted, and a backend that paginates.
unfoldable pub can_stream : Shim → ListQuery → Pushed → Bool
can_stream s q push =
    s.inner.capabilities.server_paginate
    && ((not push.filter || not push.search)
        && (not (has_items q.sort)
            && (not q.with_total && (has_filter (effective_filter q) || has_search q.search))))

-- What the loop of `_stream` has gathered.
pub record Scan : Type 0 where
  pub matched : List Row
  pub scanned : ℕ
  pub page_number : ℕ

abbrev pub scan_start : Scan
scan_start = record { matched = []; scanned = 0; page_number = 1 }

-- A round of the loop leaves it, or goes on.
pub data Round : Type 0 where
  stop : Result Scan → Round
  again : Scan → Round

abbrev pub needed : ListQuery → ℕ
needed q = offset q + q.page_size + 1

module _ (rt : Runtime) (s : Shim) (q : ListQuery) (push : Pushed) where
  abbrev pub chunk_query : ℕ → ListQuery
  chunk_query n = record (inner_query s q (record push { sort = false; page = false })) {
    page = n;
    page_size = scan_chunk;
    with_total = false;
  }

  -- The rows of a chunk that match what the backend was not asked about.
  unfoldable pub kept_of : List Row → List Row
  kept_of rows =
      (run_query rt (local_stages push false false) s.search_fields
        (record q { page = 1; page_size = length rows; with_total = false }) rows).items

  unfoldable pub wants_more : Scan → Bool
  wants_more c = ltb (length c.matched) (needed q) && ltb c.scanned s.max_scan_rows

  unfoldable pub after_chunk : Scan → List Row → Scan
  after_chunk c rows = record {
    matched = c.matched ++ kept_of rows;
    scanned = c.scanned + length rows;
    page_number = c.page_number + 1;
  }

  -- An empty chunk ends the loop, and so does a short one once its rows are taken in.
  abbrev pub take_chunk : Scan → List Row → Round
  take_chunk c rows =
      if has_items rows
      then (if ltb (length rows) scan_chunk
          then stop (ok (after_chunk c rows))
          else again (after_chunk c rows))
      else stop (ok c)

  -- One round of the `while` loop.
  unfoldable pub round : Scan → Round
  round c = elim (wants_more c) [
    | false ↦ stop (ok c)
    | true ↦ elim (s.inner.list (chunk_query c.page_number)) [
      | raise e ↦ stop (raise e)
      | ok chunk ↦ take_chunk c chunk.items
    ]
  ]

  -- The loop, on fuel; `none` means that the fuel ran out.
  unfoldable pub scan : ℕ → Scan → Option (Result Scan)
  scan zero c = none
  scan (suc fuel) c = elim (round c) [ stop r ↦ some r | again c' ↦ scan fuel c' ]

  unfoldable pub stream_page : Scan → Result (Page Row)
  stream_page c =
      if ltb (length c.matched) (needed q) && leb s.max_scan_rows c.scanned
      then raise too_many_rows
      else ok (record {
        items = slice (offset q) q.page_size c.matched;
        page = q.page;
        page_size = q.page_size;
        total = none;
        has_more = some (ltb (offset q + q.page_size) (length c.matched));
      })

  -- Every round but the last reads a full chunk, so `max_scan_rows + 1` rounds are enough.
  unfoldable pub stream : Option (Result (Page Row))
  stream = elim (scan (s.max_scan_rows + 1) scan_start) [
    | none ↦ none
    | some gathered ↦ some (gathered >>= stream_page)
  ]

-- A page that the backend cut: without a total, a full page is taken to have a next one.
unfoldable pub finish_pushed_page : ListQuery → Page Row → Page Row
finish_pushed_page q page = elim page.total [
  | some t ↦ page
  | none ↦
      if q.with_total
      then record page {
        page = q.page;
        page_size = q.page_size;
        has_more = some (leb q.page_size (length page.items));
      }
      else page
]

abbrev is_short : Page Row → ℕ → Bool
is_short page held = elim page.total [
  | none ↦ false
  | some total ↦ elim page.has_more [ none ↦ false | some more ↦ more && ltb held total ]
]

-- `_guard`: refuse to answer from rows that are known to be incomplete.
unfoldable pub guard : Shim → Page Row → Bool
guard s page = ltb s.max_rows (length page.items) || is_short page (length page.items)

-- The rest of the query, once the backend has answered.
unfoldable pub complete : Runtime → Shim → ListQuery → Pushed → Page Row → Result (Page Row)
complete rt s q push page =
    if push.page
    then ok (finish_pushed_page q page)
    else if guard s page
    then raise too_many_rows
    else ok (run_query rt (local_stages push (not push.sort) true) s.search_fields q page.items)

unfoldable pub load : Runtime → Shim → ListQuery → Pushed → Result (Page Row)
unfolding complete
load rt s q push = s.inner.list (inner_query s q push) >>= complete rt s q push

unfoldable pub list : Runtime → Shim → ListQuery → Option (Result (Page Row))
unfolding load
list rt s q =
    let push = pushed s q in
    if can_stream s q push then stream rt s q push else some (load rt s q push)
