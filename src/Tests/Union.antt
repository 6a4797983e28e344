-- ===== src/Tests/Union.antt =====
-- A union of two tables at concrete queries.
use crm_starter.Prelude.{
  ◌≡◌, refl, inr, true, false, some, none, List, [], ◌∷◌, if◌then◌else◌, length, arith,
}
use crm_starter.Core.Value.{Text, text, Row, pk, text_eq}
use crm_starter.Core.Query.{
  is_valid_condition, Op, sequence, Filter, cond, group, conj, cons, nil, ListQuery, Page, desc,
  default_query, effective_filter, iter_conditions, conditions_of, and_,
}
use crm_starter.Core.Results.{ok}
use crm_starter.Providers.Base.{full}
use crm_starter.Providers.Local.{run_query, selected, all_stages, paginate}
use crm_starter.Providers.Union.{
  Source, Union, mem, stamp, split, split_optional, labels_for, visited, needed, inner_query, merge,
  list, split, labels_for,
}
use crm_starter.Providers.Union as Union_of
use crm_starter.Providers.Union.Paging.{list-run_query}
use crm_starter.Providers.Union.Serving.{Serves, Exact, table}
use crm_starter.Providers.Union.Answers.{has_more-one_source}
use crm_starter.Providers.Union.Prefixes.{record_of, get-stamp_prefixed}
use crm_starter.Providers.Shim.{Shim, can_stream, pushed, guard}
use crm_starter.Providers.Shim as Shim_of
use crm_starter.Providers.Memory.{all_rows}
use crm_starter.Providers.Memory as Memory_of
use crm_starter.Providers.Memory.Reads.{over_memory, reader-Honours}
use crm_starter.Providers.Union.OverShims.{Shimmed, shim_reader, list-refines_table}
use crm_starter.Providers.Local as Local_of
use crm_starter.Prelude.Sort as Order_by
use crm_starter.Prelude.Assoc
use crm_starter.Providers.Base.{supports_ops}
use crm_starter.Core.Value.{py_eq}
use crm_starter.Tests.Data.{cities, ascii, rows, row1, row3, in_rome, by_city}

abbrev eu : Text
eu = b'e' ∷ b'u' ∷ []

abbrev us : Text
us = b'u' ∷ b's' ∷ []

abbrev held : Text → List Row
held l = if text_eq l eu then rows else row3 ∷ row1 ∷ []

abbrev source_of : Text → Source
source_of l = record {
  label = l;
  provider = record {
    capabilities = full;
    list = λ q. ok (run_query ascii all_stages [] q (held l));
  };
  get = λ key. ok (some (record { data_of = row1; pk_field = "id" }));
}

abbrev both : Union
both = record {
  sources = source_of eu ∷ source_of us ∷ [];
  pk_field = "id";
  source_field = "source";
  prefixed = true;
  max_rows = 5000;
  searchable_fields = [];
}

abbrev from_both : Filter
from_both =
    cond (record { field = "source"; op = Op.in_; value = sequence (text eu ∷ text us ∷ []) })

-- The rows of one city from both sources, in the order of their sources, two to a page.
abbrev asked : ListQuery
asked = record default_query {
  filter = some (group conj (cons from_both (cons in_rome nil)));
  sort = record { field = "source"; dir = desc } ∷ by_city ∷ [];
  page_size = 2;
}

serves : (l : Text) → Serves ascii [] (held l) (source_of l)
unfolding run_query paginate
serves l = record {
  answers = λ q. (run_query ascii all_stages [] q (held l), refl, refl, inr refl);
}

list-run_query_example :
    (page : Page Row) × (list ascii both asked ≡ ok page)
    × (page.items ≡ (run_query ascii all_stages [] asked (table ascii both held)).items)
    × Exact page.total (length (selected ascii all_stages [] asked (table ascii both held)))
unfolding split_optional split effective_filter and_ labels_for conditions_of iter_conditions
    is_valid_condition
list-run_query_example =
    list-run_query ascii both [] held asked (some (eu ∷ us ∷ []), some in_rome)
      (serves eu, (serves us, tt)) refl refl refl refl refl

-- The second page of the same.
abbrev asked_on : ListQuery
asked_on = record asked { page = 2 }

asked_on_answer :
    (page : Page Row) × (list ascii both asked_on ≡ ok page)
    × (page.items ≡ (run_query ascii all_stages [] asked_on (table ascii both held)).items)
    × Exact page.total (length (selected ascii all_stages [] asked_on (table ascii both held)))
unfolding split_optional split effective_filter and_ labels_for conditions_of iter_conditions
    is_valid_condition
asked_on_answer =
    list-run_query ascii both [] held asked_on (some (eu ∷ us ∷ []), some in_rome)
      (serves eu, (serves us, tt)) refl refl refl refl refl

get-stamp_prefixed_example :
    Union_of.get ascii both (pk (record_of both (stamp ascii both us row1)))
    ≡ ok (some (record_of both (stamp ascii both us row1)))
get-stamp_prefixed_example =
    get-stamp_prefixed ascii both (source_of eu ∷ []) [] (source_of us) row1 refl refl refl refl
      refl

-- One of three rows, from a source that gives no total.
abbrev one_of_three : Page Row
one_of_three = record {
  items = row1 ∷ [];
  page = 1;
  page_size = 1;
  total = none;
  has_more = some true;
}

has_more-one_source_example :
    (merge ascii both (record default_query { page_size = 1 }) ((eu, one_of_three) ∷ [])).has_more
    ≡ some false
has_more-one_source_example =
    has_more-one_source ascii both (record default_query { page_size = 1 }) eu one_of_three refl
      (omega arith)

-- Both sources behind shims, over providers that can only list the same three rows.
abbrev dumb : Shim
dumb = over_memory ascii cities [] 100 1000

abbrev behind : Text → Source
behind l = record { label = l; provider = shim_reader ascii dumb; get = λ key. ok none }

abbrev shimmed : Union
shimmed = record both { sources = behind eu ∷ behind us ∷ [] }

-- Four rows are in the city, and the second page has the last two.
abbrev second_page : Page Row
second_page = record {
  items = stamp ascii shimmed eu row1 ∷ stamp ascii shimmed eu row3 ∷ [];
  page = 2;
  page_size = 2;
  total = some 4;
  has_more = some false;
}

second : list ascii shimmed asked_on ≡ ok second_page
unfolding list split_optional effective_filter split labels_for Union_of.list_from Union_of.gather
    Shim_of.list can_stream pushed guard Memory_of.list run_query merge Local_of.apply_sort
    Union_of.sum_totals Order_by.sort inner_query Local_of.apply_search supports_ops stamp
    Local_of.apply_filter Local_of.match_tree Local_of.match_condition Assoc.lookup Assoc.insert
    py_eq Local_of.match_value Shim_of.complete Shim_of.load Shim_of.inner_query Local_of.selected
    and_ Local_of.row_lt
second = refl

source_behind : (l : Text) → Shimmed ascii [] (all_rows cities) (behind l)
source_behind l = record {
  shim = dumb;
  behind = refl;
  searches = refl;
  honours = reader-Honours ascii cities;
}

list-refines_table_example :
    second_page.items
    ≡ (run_query ascii all_stages [] asked_on (table ascii shimmed (λ l. all_rows cities))).items
unfolding effective_filter and_ conditions_of iter_conditions is_valid_condition
list-refines_table_example =
    list-refines_table ascii shimmed [] (λ l. all_rows cities) asked_on second_page
      (source_behind eu, (source_behind us, tt)) refl refl refl second
