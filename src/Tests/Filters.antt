-- ===== src/Tests/Filters.antt =====
-- Query strings of a resource with three fields, one of them for managers only.
use crm_starter.Prelude.{String, ◌≡◌, refl, true, false, some, List, [], ◌∷◌, All}
use crm_starter.Core.Results.{ok}
use crm_starter.Core.Query.{Op, conditions_of, cond, sequence, is_valid_condition}
use crm_starter.Core.Value.{text}
use crm_starter.Core.Placement.{rstrip, lstrip}
use crm_starter.Core.Texts.{partition_on, split_on}
use crm_starter.Prelude.Sort.{sort}
use crm_starter.Auth.Passwords.{codes}
use crm_starter.Resources.Policy.{Identity}
use crm_starter.Web.Filters.{
  Field, Resource, Calendar, parse_op, field_named, resolve_alias, own_alias,
}
use crm_starter.Web.Filters.Parsing.{parse_filters, parse_pair, filter_key, resolve_all, read_all}
use crm_starter.Web.Filters.Panel.{
  Pairs, Digits, canonical_params, has_panel_params, take_pair, collect, canonical_pair, keyed,
}
use crm_starter.Web.Filters.Safety.{IsAllowed, parse_filters-IsAllowed}
use crm_starter.Web.Filters.RoundTrip.{Says, several, parse_pair-filter_key}
use crm_starter.Web.Filters.Redirects.{IsSettled, canonical_params-IsSettled}
use crm_starter.Tests.Data.{ascii}

abbrev column : String → List String → List Op → Field
column name read_roles ops = record {
  name = name;
  read_roles = read_roles;
  supported_ops = ops;
  sortable = true;
  to_python = λ v. ok (some v);
}

abbrev stage : Field
stage = column "stage" [] (Op.eq ∷ Op.in_ ∷ Op.is_null ∷ [])

abbrev deals : Resource
deals = record {
  fields =
      stage
      ∷ column "amount" [] (Op.gte ∷ [])
      ∷ column "margin" ("manager" ∷ []) (Op.gte ∷ [])
      ∷ [];
  aliases = [];
}

abbrev seller : Identity
seller = record {
  subject = codes "7";
  email = codes "kim@example.com";
  display_name = codes "Kim";
  roles = "sales" ∷ [];
  is_authenticated = true;
}

abbrev calendar : Calendar
calendar = record {
  now = 0;
  today = λ i. 20_000;
  weekday = λ d. 2;
  month_start = λ d. 19_995;
  month_end = λ d. 20_024;
  year_start = λ d. 19_723;
}

abbrev link : Pairs
link =
    (codes "f.stage", codes "won")
    ∷ (codes "f.margin__gte", codes "5")
    ∷ (codes "f.amount__gte", codes "@today")
    ∷ (codes "f.stage__gte", codes "a")
    ∷ []

parse_filters-IsAllowed_example :
    All
      (IsAllowed ascii calendar deals seller)
      (conditions_of (parse_filters ascii calendar deals seller link))
parse_filters-IsAllowed_example = parse_filters-IsAllowed ascii calendar deals seller link

won_or_lost :
    Says ascii calendar deals seller stage Op.in_
      (codes "won,lost")
      (sequence (text (codes "won") ∷ text (codes "lost") ∷ []))
unfolding resolve_all read_all split_on lstrip rstrip resolve_alias own_alias is_valid_condition
won_or_lost =
    several Op.in_ b'w' (codes "on,lost") (text (codes "won") ∷ text (codes "lost") ∷ [])
      (text (codes "won")) (text (codes "lost") ∷ []) refl refl refl refl refl

parse_pair-filter_key_example :
    parse_pair ascii calendar deals seller (filter_key (codes "stage") Op.in_, codes "won,lost")
    ≡ some (
        cond (record {
          field = "stage";
          op = Op.in_;
          value = sequence (text (codes "won") ∷ text (codes "lost") ∷ []);
        }))
unfolding field_named
parse_pair-filter_key_example =
    parse_pair-filter_key ascii calendar deals seller stage Op.in_ (codes "won,lost")
      (sequence (text (codes "won") ∷ text (codes "lost") ∷ [])) refl
      (refl, (refl, (refl, (refl, refl)))) refl refl won_or_lost

abbrev one_digit : Digits
one_digit = record { is_digit = λ t. true; parse_nat = λ t. some 1 }

abbrev panel : Pairs
panel =
    (codes "fc.0.field", codes "stage")
    ∷ (codes "f.amount__gte", codes "5")
    ∷ (codes "fc.0.value", codes "won")
    ∷ (codes "page", codes "7")
    ∷ []

canonical_params-IsSettled_example :
    All (IsSettled ascii one_digit deals) ((codes "f.stage", codes "won") ∷ [])
    × (has_panel_params ((codes "f.stage", codes "won") ∷ []) ≡ false)
unfolding canonical_params keyed collect take_pair partition_on sort canonical_pair field_named
    rstrip lstrip parse_op filter_key
canonical_params-IsSettled_example =
    canonical_params-IsSettled ascii one_digit deals panel ((codes "f.stage", codes "won") ∷ [])
      refl
