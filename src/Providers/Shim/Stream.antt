-- ===== src/Providers/Shim/Stream.antt =====
-- `_stream`: the scan ends, and a page that it gives is the page of the whole collection.
use mathlib.Core.Path.{ap₂}
use crm_starter.Prelude.{
  ℕ, zero, suc, ◌+◌, ◌*◌, ◌-◌, ◌≤◌, ◌<◌, ◌≡◌, ◌≢◌, ◌∙◌, refl, ap, sym, Bool, true, false, not, none,
  some, List, [], ◌∷◌, ◌++◌, arith, if◌then◌else◌, inl, inr, length, slice, keep-append,
  Option-cases, ltb-false, ltb, ◌⊎◌,
}
use crm_starter.Core.Value.{Runtime, Row}
use crm_starter.Core.Query.{Sort, ListQuery, Page, effective_filter}
use crm_starter.Core.Results.{Result, ok, Result-cases, ok-inj}
use crm_starter.Providers.Local.Pipeline.{items-paged, items-whole}
use crm_starter.Providers.Local.Commute.{apply_filter-keep, apply_search-keep}
use crm_starter.Providers.Local.{all_stages, selected, apply_filter, apply_search, apply_sort}
use crm_starter.Providers.Base.{Honours, Takes, stages_of}
use crm_starter.Providers.Shim.{
  Shim, Pushed, local_stages, has_items, Scan, chunk_query, kept_of, wants_more, after_chunk, scan,
  scan_start, stream, scan_chunk, Round, stop, again, round,
}
use crm_starter.Providers.Shim.Pushdown.{
  IsSafe, inner-Takes, pushed_rows, inner-selected, local-selected,
}

module _ (rt : Runtime) (s : Shim) (q : ListQuery) (push : Pushed) where
  -- A round that goes on was wanted, and read a full chunk.
  pub round-again :
      (c c' : Scan)
      → round rt s q push c ≡ again c'
      → (wants_more rt s q push c ≡ true)
        × (chunk : Page Row) × (s.inner.list (chunk_query rt s q push c.page_number) ≡ ok chunk)
        × (ltb (length chunk.items) scan_chunk ≡ false)
        × (c' ≡ after_chunk rt s q push c chunk.items)
  unfolding round
  round-again c c' h = elim (Result-cases (s.inner.list (chunk_query rt s q push c.page_number))) [
    | inl (chunk, e) ↦ (ground arith, chunk, e, ground (arith, e), ground (arith, e))
    | inr (e, r) ↦ absurd (ground (arith, r))
  ]

  pub scan_step :
      (fuel : ℕ) (c : Scan)
      → ((r : Result Scan) × (round rt s q push c ≡ stop r)
          × (scan rt s q push (suc fuel) c ≡ some r))
        ⊎ ((c' : Scan) × (round rt s q push c ≡ again c')
            × (scan rt s q push (suc fuel) c ≡ scan rt s q push fuel c'))
  unfolding scan
  scan_step fuel c = go (round rt s q push c) refl
    where
      go :
          (o : Round)
          → round rt s q push c ≡ o
          → ((r : Result Scan) × (round rt s q push c ≡ stop r)
              × (scan rt s q push (suc fuel) c ≡ some r))
            ⊎ ((c' : Scan) × (round rt s q push c ≡ again c')
                × (scan rt s q push (suc fuel) c ≡ scan rt s q push fuel c'))
      go (stop r) e = inl (r, e, rw (e, scan) refl)
      go (again c') e = inr (c', e, rw (e, scan) refl)

  bigger :
      (c c' : Scan)
      → round rt s q push c ≡ again c'
      → (c.scanned < s.max_scan_rows) × (c.scanned + 500 ≤ c'.scanned)
  unfolding wants_more after_chunk
  bigger c c' h =
      let (w, chunk, _, long, e) = round-again c c' h in
      (
        ground (arith, w),
        omega (arith, ap (λ x. x.scanned) e, ltb-false (length chunk.items) 500 long),
      )

  -- A round that goes on has read a full chunk, so the rounds are bounded by the rows to scan.
  scan_total :
      (fuel : ℕ) (c : Scan)
      → 0 < fuel
      → s.max_scan_rows < fuel + c.scanned
      → scan rt s q push fuel c ≢ none
  scan_total zero c h k = absurd (omega arith)
  scan_total (suc fuel) c h k = elim (scan_step fuel c) [
    | inl (r, _, e) ↦ λ out. cc
    | inr (c', again_c, e) ↦
        let (room, more) = bigger c c' again_c in
        λ out. scan_total fuel c' (omega arith) (omega arith) (sym e ∙ out)
  ]

  -- The fuel of `stream` is enough, whatever the backend answers.
  pub stream_total : stream rt s q push ≢ none
  unfolding stream
  stream_total h = elim (Option-cases (scan rt s q push (s.max_scan_rows + 1) scan_start)) [
    | inl out ↦ scan_total (s.max_scan_rows + 1) scan_start (omega arith) (omega arith) out
    | inr (r, e) ↦ ground (arith, e, h)
  ]

-- A search for which nothing was asked of the backend's order or pages.
abbrev pub chunk_push : Pushed → Pushed
chunk_push push = record push { sort = false; page = false }

sort-none :
    (rt : Runtime) (xs : List Row) (sorts : List Sort)
    → has_items sorts ≡ false
    → apply_sort rt xs sorts ≡ xs
unfolding apply_sort
sort-none rt xs [] h = refl
sort-none rt xs (spec ∷ sorts) h = cc

module _ (rt : Runtime) (s : Shim) (q : ListQuery) (push : Pushed) where
  abbrev pub part : Bool → Bool → List Row → List Row
  part f w xs =
      let filtered = if f then apply_filter rt xs (effective_filter q) else xs in
      if w then apply_search rt filtered q.search s.search_fields else filtered

  pub part-append :
      (f w : Bool) (xs ys : List Row) → part f w (xs ++ ys) ≡ part f w xs ++ part f w ys
  part-append true true xs ys = simp (apply_filter-keep, apply_search-keep, keep-append)
  part-append true false xs ys = simp (apply_filter-keep, keep-append)
  part-append false true xs ys = simp (apply_search-keep, keep-append)
  part-append false false xs ys = refl

  pub part-nil : (f w : Bool) → part f w [] ≡ []
  part-nil true true = simp (apply_filter-keep, apply_search-keep)
  part-nil true false = simp apply_filter-keep
  part-nil false true = simp apply_search-keep
  part-nil false false = refl

  -- The rows that the shim keeps, of those that the backend finds.
  abbrev pub local_part : List Row → List Row
  local_part = part (not push.filter) (not push.search)

  pub kept_of-part : (rows : List Row) → kept_of rt s q push rows ≡ local_part rows
  unfolding kept_of selected effective_filter
  kept_of-part rows =
      items-whole rt (local_stages push false false) s.search_fields
        (record q { page = 1; page_size = length rows; with_total = false }) rows refl

  module _ (rows : List Row) (safe : IsSafe s q push)
      (paginates : s.inner.capabilities.server_paginate ≡ true)
      (unsorted : has_items q.sort ≡ false) (honours : Honours rt s.inner rows) where
    pub chunk-IsSafe : IsSafe s q (chunk_push push)
    chunk-IsSafe = record {
      takes = safe.takes;
      filter = safe.filter;
      sort = λ h. cc;
      search = safe.search;
      search_fields = safe.search_fields;
    }

    -- What the scan goes through, and what it is looking for.
    abbrev pub base : List Row
    base = pushed_rows rt s q (chunk_push push) rows

    abbrev pub wanted : List Row
    wanted = local_part base

    pub wanted-selected : wanted ≡ selected rt all_stages s.search_fields q rows
    unfolding selected
    wanted-selected =
        sym (sort-none rt wanted q.sort unsorted)
        ∙ local-selected rt s q (chunk_push push) chunk-IsSafe rows true

    selected-chunk :
        (n : ℕ)
        → selected rt
            (stages_of s.inner.capabilities)
            s.inner.capabilities.searchable_fields
            (chunk_query rt s q push n)
            rows
          ≡ base
    unfolding selected effective_filter
    selected-chunk n = inner-selected rt s q (chunk_push push) chunk-IsSafe rows

    chunk-Takes :
        (n : ℕ) → Takes s.inner.capabilities (effective_filter (chunk_query rt s q push n))
    unfolding effective_filter
    chunk-Takes n = inner-Takes s q (chunk_push push) chunk-IsSafe

    -- Page k + 1 of the backend is the chunk behind the first k.
    pub chunk-items :
        (k : ℕ) (chunk : Page Row)
        → s.inner.list (chunk_query rt s q push (suc k)) ≡ ok chunk
        → chunk.items ≡ slice (k * 500) 500 base
    chunk-items k chunk e =
        let (page, listed, items, _) =
          honours.answers (chunk_query rt s q push (suc k)) (chunk-Takes (suc k)) in
        ap (λ p. p.items) (ok-inj (sym e ∙ listed))
        ∙ items
        ∙ items-paged rt (stages_of s.inner.capabilities) s.inner.capabilities.searchable_fields
            (chunk_query rt s q push (suc k)) rows paginates
        ∙ ap₂ (λ o xs. slice o 500 xs) (chunk_offset k) (selected-chunk (suc k))
      where
        chunk_offset : (j : ℕ) → (suc j - 1) * 500 ≡ j * 500
        chunk_offset j = omega arith
