-- ===== src/Tests/Shim.antt =====
-- The shim at concrete inputs, over an in-memory provider that can only list its rows.
use crm_starter.Prelude.{◌≡◌, ◌≢◌, refl, true, false, none, some, [], ◌∷◌, length, ◌≤◌, arith}
use crm_starter.Core.Value.{Row}
use crm_starter.Core.Query.{Page, effective_filter}
use crm_starter.Core.Results.{ok}
use crm_starter.Providers.Base.{read_only_dumb, supports_ops}
use crm_starter.Providers.Local.{
  all_stages, run_query, apply_sort, apply_search, apply_filter, match_condition, match_tree,
}
use crm_starter.Prelude.Sort.{sort}
use crm_starter.Prelude.Assoc
use crm_starter.Core.Value.{py_eq}
use crm_starter.Providers.Memory as Memory_of
use crm_starter.Providers.Memory.{Memory, reader, all_rows}
use crm_starter.Providers.Memory.Reads.{reader-Honours, over_memory}
use crm_starter.Providers.Shim.{
  Shim, pushed, load, stream, can_stream, guard, stream_page, scan, round, kept_of, wants_more,
  after_chunk, inner_query,
}
use crm_starter.Providers.Shim as Shim_of
use crm_starter.Providers.Shim.Refinement.{list-refines_run_query}
use crm_starter.Providers.Shim.Pushdown.{pushed_rows}
use crm_starter.Providers.Shim.Stream.{stream_total}
use crm_starter.Tests.Data.{ascii, cities, query, row3}

abbrev pub dumb : Shim
dumb = over_memory ascii cities [] 100 1000

-- The same over a provider that pages, so that the shim streams.
abbrev paging : Memory
paging = record cities { capabilities = record read_only_dumb { server_paginate = true } }

abbrev streaming : Shim
streaming = over_memory ascii paging [] 100 1000

abbrev answer : Page Row
answer = record {
  items = row3 ∷ [];
  page = 1;
  page_size = 1;
  total = some 1;
  has_more = some false;
}

answers : Shim_of.list ascii dumb query ≡ some (ok answer)
unfolding Shim_of.list can_stream pushed guard Memory_of.list run_query apply_sort sort apply_search
    supports_ops apply_filter effective_filter match_tree match_condition Assoc.lookup py_eq
answers = refl

abbrev streamed : Page Row
streamed = record {
  items = row3 ∷ [];
  page = 1;
  page_size = 1;
  total = some 1;
  has_more = some false;
}

streams : Shim_of.list ascii streaming query ≡ some (ok streamed)
unfolding Shim_of.list can_stream pushed guard Memory_of.list run_query apply_sort sort apply_search
    supports_ops apply_filter effective_filter match_tree match_condition Assoc.lookup py_eq stream
    stream_page scan round kept_of wants_more after_chunk inner_query
streams = refl

list-refines_run_query_example :
    streamed.items
    ≡ (run_query ascii all_stages streaming.search_fields query (all_rows paging)).items
list-refines_run_query_example =
    list-refines_run_query ascii streaming query (all_rows paging) streamed
      (reader-Honours ascii paging) streams

few : length (pushed_rows ascii dumb query (pushed dumb query) (all_rows cities)) ≤ 100
unfolding pushed pushed_rows supports_ops
few = omega arith

stream_total_example : stream ascii streaming query (pushed streaming query) ≢ none
stream_total_example = stream_total ascii streaming query (pushed streaming query)
