-- ===== src/Providers/Base.antt =====
-- app/providers/base.py: what a provider says that it can do, and what it is asked to do.
use crm_starter.Prelude.{
  ℕ, ◌≡◌, ◌⊎◌, Option, none, some, length, Bool, true, false, ◌&&◌, ◌||◌, String, List, [], ◌∷◌,
  all, any, ◌==◌, All,
}
use crm_starter.Core.Value.{Value, Runtime, Row, Record}
use crm_starter.Core.Query.{Op, ListQuery, Page, Filter, iter_conditions, effective_filter}
use crm_starter.Core.Results.{Result, ok, WriteResult}
use crm_starter.Core.Aggregates.{AggSpec}
use crm_starter.Providers.Local.{Stages, selected, run_query}

pub data WriteMode : Type 0 where
  sync async : WriteMode

pub record Capabilities : Type 0 where
  pub read : Bool
  pub write : Bool
  pub create : Bool
  pub update : Bool
  pub delete : Bool
  pub server_filter : Bool
  pub server_sort : Bool
  pub server_search : Bool
  pub server_paginate : Bool
  pub total_count : Bool
  pub aggregate : Bool
  pub write_mode : WriteMode
  pub filter_ops : List Op
  pub searchable_fields : List String

abbrev pub op_index : Op → ℕ
op_index Op.eq = 0
op_index Op.ne = 1
op_index Op.lt = 2
op_index Op.lte = 3
op_index Op.gt = 4
op_index Op.gte = 5
op_index Op.in_ = 6
op_index Op.not_in = 7
op_index Op.contains = 8
op_index Op.icontains = 9
op_index Op.startswith = 10
op_index Op.endswith = 11
op_index Op.is_null = 12
op_index Op.not_null = 13
op_index Op.between = 14

abbrev pub op_eq : Op → Op → Bool
op_eq a b = op_index a == op_index b

abbrev pub all_ops : List Op
all_ops =
    Op.eq ∷ Op.ne ∷ Op.lt ∷ Op.lte ∷ Op.gt ∷ Op.gte ∷ Op.in_ ∷ Op.not_in ∷ Op.contains
    ∷ Op.icontains ∷ Op.startswith ∷ Op.endswith ∷ Op.is_null ∷ Op.not_null ∷ Op.between ∷ []

-- Every operator used can be pushed down to the backend.
unfoldable pub supports_ops : Capabilities → List Op → Bool
supports_ops caps ops = caps.server_filter && all (λ op. any (op_eq op) caps.filter_ops) ops

unfoldable pub is_writable : Capabilities → Bool
is_writable caps = caps.create || (caps.update || caps.delete)

-- A backend that can do everything itself.
abbrev pub full : Capabilities
full = record {
  read = true;
  write = true;
  create = true;
  update = true;
  delete = true;
  server_filter = true;
  server_sort = true;
  server_search = true;
  server_paginate = true;
  total_count = true;
  aggregate = true;
  write_mode = sync;
  filter_ops = all_ops;
  searchable_fields = [];
}

-- A backend that can only hand over rows.
abbrev pub read_only_dumb : Capabilities
read_only_dumb = record {
  read = true;
  write = false;
  create = false;
  update = false;
  delete = false;
  server_filter = false;
  server_sort = false;
  server_search = false;
  server_paginate = false;
  total_count = false;
  aggregate = false;
  write_mode = sync;
  filter_ops = [];
  searchable_fields = [];
}

-- The reading half of a provider whose rows stand still: what it can do, and its `list`. The
-- request context is passed on and not read, so it is left out.
pub record Reader : Type 0 where
  pub capabilities : Capabilities
  pub list : ListQuery → Result (Page Row)

-- The stages that a backend does by itself.
abbrev pub stages_of : Capabilities → Stages
stages_of caps = record {
  do_filter = caps.server_filter;
  do_search = caps.server_search;
  do_sort = caps.server_sort;
  do_paginate = caps.server_paginate;
}

abbrev pub Knows : Op → List Op → Type 0
Knows op [] = ⊥
Knows op (o ∷ ops) = (op ≡ o) ⊎ Knows op ops

-- A filter that a backend takes: it filters, and it knows each operator of the filter's conditions.
abbrev pub Takes : Capabilities → Option Filter → Type 0
Takes caps none = Unit
Takes caps (some f) =
    (caps.server_filter ≡ true) × All (λ k. Knows k.op caps.filter_ops) (iter_conditions f)

-- What the shim expects of a backend over `rows`: asked for no filter or for one that it takes, it
-- does exactly the stages that it claims, and it gives a total only if that is the number of rows
-- found. Of other filters nothing is expected.
pub record Honours (rt : Runtime) (r : Reader) (rows : List Row) : Type 0 where
  pub answers :
      (q : ListQuery)
      → Takes r.capabilities (effective_filter q)
      → (page : Page Row) × (r.list q ≡ ok page)
        × (page.items
            ≡ (run_query rt
                (stages_of r.capabilities)
                r.capabilities.searchable_fields
                q
                rows).items)
        × ((page.total ≡ none)
            ⊎ (page.total
                ≡ some (
                    length (
                      selected rt
                        (stages_of r.capabilities)
                        r.capabilities.searchable_fields
                        q
                        rows))))

-- All of a provider that requests call, over its state `S`; a read changes nothing.
pub record Provider {ℓ} (S : Type ℓ) : Type ℓ where
  pub capabilities : Capabilities
  pub list : S → ListQuery → Result (Page Row)
  pub get : S → Value → Result (Option Record)
  pub aggregate : S → AggSpec → Result (List Row)
  pub create : S → Row → Result WriteResult × S
  pub update : S → Value → Row → Result WriteResult × S
  pub update_if : S → Value → Row → Row → Result (Option WriteResult) × S
  pub delete : S → Value → Result WriteResult × S

-- `replace(write=..., delete=False)`: to override `write` is to override a create and an update too.
abbrev pub without_writes : Capabilities → Capabilities
without_writes caps = record caps { write = false; create = false; update = false; delete = false }
