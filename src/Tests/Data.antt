-- ===== src/Tests/Data.antt =====
-- The rows, queries and providers that the tests use.
use crm_starter.Prelude.{ℕ, true, ◌==◌, Option, none, some, List, [], ◌∷◌}
use crm_starter.Prelude.Int.{ℤ, pos}
use crm_starter.Core.Value.{Text, num, text, Runtime, Row}
use crm_starter.Core.Query.{Op, scalar, Filter, cond, Sort, asc, desc, ListQuery, default_query}
use crm_starter.Providers.Base.{read_only_dumb}
use crm_starter.Providers.Memory.{Memory}

-- A runtime for ASCII texts, with names for the texts of other values.
abbrev pub ascii : Runtime
ascii = record {
  casefold = λ t. t;
  is_space = λ c. c == 32;
  show_list = λ vs. [];
  show_num = λ n. b'0' ∷ [];
  show_date = λ d. b'd' ∷ [];
  show_datetime = λ t. b't' ∷ [];
}

abbrev pub city_row : ℕ → Text → Row
city_row id city = ("id", num (pos id)) ∷ ("city", text city) ∷ []

abbrev pub rome : Text
rome = b'R' ∷ b'o' ∷ b'm' ∷ b'e' ∷ []

abbrev pub oslo : Text
oslo = b'O' ∷ b's' ∷ b'l' ∷ b'o' ∷ []

abbrev pub row1 : Row
row1 = city_row 1 rome

abbrev pub row2 : Row
row2 = city_row 2 oslo

abbrev pub row3 : Row
row3 = city_row 3 rome

abbrev pub rows : List Row
rows = row1 ∷ row2 ∷ row3 ∷ []

abbrev pub in_rome : Filter
in_rome = cond (record { field = "city"; op = Op.eq; value = scalar (text rome) })

abbrev pub above_one : Filter
above_one = cond (record { field = "id"; op = Op.gt; value = scalar (num (pos 1)) })

abbrev pub by_id_down : Sort
by_id_down = record { field = "id"; dir = desc }

abbrev pub by_city : Sort
by_city = record { field = "city"; dir = asc }

-- The rows of one city, within the caller's scope, one to a page.
abbrev pub query : ListQuery
query = record default_query {
  filter = some in_rome;
  scope = some above_one;
  sort = by_city ∷ by_id_down ∷ [];
  page_size = 1;
}

abbrev pub parse_nothing : Text → Option ℤ
parse_nothing t = none

-- Three rows, behind a provider that can only list them.
abbrev pub cities : Memory
cities = record {
  pk_field = "id";
  autoincrement = true;
  capabilities = read_only_dumb;
  rows = (num (pos 1), row1) ∷ (num (pos 2), row2) ∷ (num (pos 3), row3) ∷ [];
  counter = pos 4;
}
