-- ===== src/Providers/Shim/Pushdown.antt =====
-- What the backend does and what is left for the shim: together, the whole query.
use text.Mathlib.TextEquality.{eq_iff}
use crm_starter.Prelude.{
  ℕ, zero, suc, ◌==◌, ◌∙◌, sym, ap, Option, some, All, all, any, map, and-eq-true, ◌≡◌, refl, Bool,
  true, false, not, String, none, List, [], ◌∷◌, arith, if◌then◌else◌, inl, inr, Bool-cases,
}
use crm_starter.Core.Value.{Runtime, Row}
use crm_starter.Core.Query.{
  Op, Condition, Filter, iter_conditions, filter_ops, ListQuery, effective_filter, and_,
}
use crm_starter.Providers.Local.{
  all_stages, apply_filter, apply_search, apply_sort, selected, search_terms,
}
use crm_starter.Providers.Local.Commute.{search-filter, filter-sort, search-sort}
use crm_starter.Providers.Base.{
  Capabilities, all_ops, Takes, Knows, op_eq, op_index, supports_ops, stages_of,
}
use crm_starter.Providers.Shim.{Shim, Pushed, pushed, inner_query, local_stages, fields_eq}

fields_eq-eq : (a b : List String) → fields_eq a b ≡ true → a ≡ b
fields_eq-eq [] [] h = refl
fields_eq-eq (x ∷ a) (y ∷ b) h = ground (arith, eq_iff x y, fields_eq-eq a b)
fields_eq-eq [] (y ∷ b) h = cc
fields_eq-eq (x ∷ a) [] h = cc

-- The operators by their places.
nth : List Op → ℕ → Op
nth [] n = Op.between
nth (op ∷ ops) zero = op
nth (op ∷ ops) (suc n) = nth ops n

op_at : ℕ → Op
op_at n = nth all_ops n

op_at-op_index : (op : Op) → op_at (op_index op) ≡ op
unfolding op_at nth
op_at-op_index Op.eq = refl
op_at-op_index Op.ne = refl
op_at-op_index Op.lt = refl
op_at-op_index Op.lte = refl
op_at-op_index Op.gt = refl
op_at-op_index Op.gte = refl
op_at-op_index Op.in_ = refl
op_at-op_index Op.not_in = refl
op_at-op_index Op.contains = refl
op_at-op_index Op.icontains = refl
op_at-op_index Op.startswith = refl
op_at-op_index Op.endswith = refl
op_at-op_index Op.is_null = refl
op_at-op_index Op.not_null = refl
op_at-op_index Op.between = refl

any-Knows : (op : Op) (ops : List Op) → any (op_eq op) ops ≡ true → Knows op ops
any-Knows op [] h = cc
any-Knows op (o ∷ ops) h = elim (Bool-cases (op_eq op o)) [
  | inl e ↦
      inl
        (sym (op_at-op_index op) ∙ ap op_at (same (op_index op) (op_index o) e) ∙ op_at-op_index o)
  | inr e ↦ inr (any-Knows op ops (rw e at h))
]
  where
    same : (m n : ℕ) → (m == n) ≡ true → m ≡ n
    same m n k = ground (arith, k)

all-Knows :
    (ops : List Op) (ks : List Condition)
    → all (λ op. any (op_eq op) ops) (map (λ k. k.op) ks) ≡ true
    → All (λ k. Knows k.op ops) ks
all-Knows ops [] h = tt
all-Knows ops (k ∷ ks) h =
    let (here, rest) =
      and-eq-true (any (op_eq k.op) ops) (all (λ op. any (op_eq op) ops) (map (λ x. x.op) ks)) h in
    (any-Knows k.op ops here, all-Knows ops ks rest)

-- What `supports_ops` lets through, the backend takes.
supports_ops-Takes :
    (caps : Capabilities) (f : Option Filter)
    → supports_ops caps (filter_ops f) ≡ true
    → Takes caps f
unfolding supports_ops filter_ops
supports_ops-Takes caps none h = tt
supports_ops-Takes caps (some f) h =
    let (on, known) =
      and-eq-true caps.server_filter
        (all (λ op. any (op_eq op) caps.filter_ops) (map (λ k. k.op) (iter_conditions f))) h in
    (on, all-Knows caps.filter_ops (iter_conditions f) known)

-- Only what the backend claims is pushed to it, and no filter that it does not take.
pub record IsSafe (s : Shim) (q : ListQuery) (push : Pushed) : Type 0 where
  pub takes : push.filter ≡ true → Takes s.inner.capabilities (effective_filter q)
  pub filter : push.filter ≡ true → s.inner.capabilities.server_filter ≡ true
  pub sort : push.sort ≡ true → s.inner.capabilities.server_sort ≡ true
  pub search : push.search ≡ true → s.inner.capabilities.server_search ≡ true
  pub search_fields : push.search ≡ true → s.inner.capabilities.searchable_fields ≡ s.search_fields

pub pushed-IsSafe : (s : Shim) (q : ListQuery) → IsSafe s q (pushed s q)
unfolding pushed supports_ops
pushed-IsSafe s q = record {
  takes = λ h. supports_ops-Takes s.inner.capabilities (effective_filter q) h;
  filter = λ h. ground arith;
  sort = λ h. ground arith;
  search = λ h. ground arith;
  search_fields =
      λ h. fields_eq-eq s.inner.capabilities.searchable_fields s.search_fields (ground arith);
}

module _ (s : Shim) (q : ListQuery) (push : Pushed) where
  inner_filter :
      effective_filter (inner_query s q push) ≡ (if push.filter then effective_filter q else none)
  unfolding inner_query effective_filter and_
  inner_filter = ground arith

  inner_search : (inner_query s q push).search ≡ (if push.search then q.search else none)
  unfolding inner_query
  inner_search = ground arith

  inner_sort : (inner_query s q push).sort ≡ (if push.sort then q.sort else [])
  unfolding inner_query
  inner_sort = ground arith

-- The backend is asked for no filter that it does not take.
pub inner-Takes :
    (s : Shim) (q : ListQuery) (push : Pushed)
    → IsSafe s q push
    → Takes s.inner.capabilities (effective_filter (inner_query s q push))
inner-Takes s q push safe =
    rw (inner_filter s q push)
      (elim (Bool-cases push.filter) [ inl e ↦ rw e (safe.takes e) | inr e ↦ rw e tt ])

module _ (rt : Runtime) (s : Shim) (q : ListQuery) (push : Pushed) (rows : List Row) where
  abbrev caps : Capabilities
  caps = s.inner.capabilities

  abbrev filter_here : Bool → List Row → List Row
  filter_here b xs = if b then apply_filter rt xs (effective_filter q) else xs

  abbrev search_here : Bool → List Row → List Row
  search_here b xs = if b then apply_search rt xs q.search s.search_fields else xs

  abbrev sort_here : Bool → List Row → List Row
  sort_here b xs = if b then apply_sort rt xs q.sort else xs

  -- The rows that the backend finds.
  abbrev pub pushed_rows : List Row
  pushed_rows = sort_here push.sort (search_here push.search (filter_here push.filter rows))

module _ (rt : Runtime) (s : Shim) (q : ListQuery) (push : Pushed) (safe : IsSafe s q push)
    (rows : List Row) where
  filter_stage :
      (xs : List Row)
      → (if s.inner.capabilities.server_filter
          then apply_filter rt xs (effective_filter (inner_query s q push))
          else xs)
        ≡ filter_here rt s q push rows push.filter xs
  unfolding apply_filter
  filter_stage xs = rw inner_filter (ground (arith, safe.filter))

  search_stage :
      (xs : List Row)
      → (if s.inner.capabilities.server_search
          then apply_search rt xs
              (inner_query s q push).search
              s.inner.capabilities.searchable_fields
          else xs)
        ≡ search_here rt s q push rows push.search xs
  unfolding apply_search search_terms
  search_stage xs = rw inner_search (elim (Bool-cases push.search) [
    | inl e ↦ rw (e, safe.search e, safe.search_fields e) refl
    | inr e ↦ rw e (ground arith)
  ])

  sort_stage :
      (xs : List Row)
      → (if s.inner.capabilities.server_sort
          then apply_sort rt xs (inner_query s q push).sort
          else xs)
        ≡ sort_here rt s q push rows push.sort xs
  unfolding apply_sort
  sort_stage xs = rw inner_sort (ground (arith, safe.sort))

  pub inner-selected :
      selected rt
        (stages_of s.inner.capabilities)
        s.inner.capabilities.searchable_fields
        (inner_query s q push)
        rows
      ≡ pushed_rows rt s q push rows
  unfolding selected
  inner-selected = rw (filter_stage, search_stage, sort_stage) refl

  -- The stages that were not pushed, applied to what the backend finds.
  abbrev finished : Bool → Bool → Bool → List Row
  finished f w o = sort_here rt s q push rows (not o) (
      search_here rt s q push rows (not w) (
        filter_here rt s q push rows (not f) (
          sort_here rt s q push rows o
            (search_here rt s q push rows w (filter_here rt s q push rows f rows)))))

  finished_all : (f w o : Bool) → finished f w o ≡ finished true true true
  finished_all true true true = refl
  finished_all true true false = refl
  finished_all true false true =
      search-sort rt (apply_filter rt rows (effective_filter q)) q.sort q.search s.search_fields
  finished_all true false false = refl
  finished_all false true true = simp (filter-sort, search-filter)
  finished_all false true false = simp (search-filter)
  finished_all false false true = simp (filter-sort, search-sort)
  finished_all false false false = refl

  -- Nothing is applied twice and nothing is left out, in whichever order the two sides work.
  pub local-selected :
      (paginate : Bool)
      → selected rt
          (local_stages push (not push.sort) paginate)
          s.search_fields
          q
          (pushed_rows rt s q push rows)
        ≡ selected rt all_stages s.search_fields q rows
  unfolding selected
  local-selected paginate = finished_all push.filter push.search push.sort
