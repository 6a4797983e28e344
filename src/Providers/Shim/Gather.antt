-- ===== src/Providers/Shim/Gather.antt =====
-- What the scan of `_stream` has gathered when it ends, and the page that is cut from it.
use crm_starter.Prelude.{
  ℕ, zero, suc, ◌+◌, ◌*◌, ◌≤◌, ◌<◌, ◌≡◌, ◌∙◌, refl, ap, sym, true, false, not, Option, none, some,
  List, [], ◌∷◌, ◌++◌, arith, inl, inr, Bool-cases, length, take, drop, slice, take-append-slice,
  take-append-drop, take_all, slice-append_left, length-take, length-drop, length-append, ltb, ◌⊎◌,
  ltb→lt,
}
use mathlib.Core.Path.{ap₂}
use crm_starter.Core.Value.{Runtime, Row}
use crm_starter.Core.Query.{ListQuery, Page, offset}
use crm_starter.Core.Results.{Result, ok, raise, Result-cases}
use crm_starter.Providers.Base.{Honours}
use crm_starter.Providers.Shim.{
  Shim, Pushed, has_items, Scan, needed, chunk_query, wants_more, after_chunk, scan, stream_page,
  scan_start, stream, scan_chunk, stop, again, round,
}
use crm_starter.Providers.Shim.Pushdown.{IsSafe}
use crm_starter.Providers.Shim.Stream.{
  scan_step, round-again, local_part, part-append, part-nil, kept_of-part, base, chunk-items,
}

module _ (rt : Runtime) (s : Shim) (q : ListQuery) (push : Pushed) where
  -- The three ways out of the loop with no error.
  round_stop :
      (c c' : Scan)
      → round rt s q push c ≡ stop (ok c')
      → (wants_more rt s q push c ≡ false) × (c' ≡ c)
        ⊎ ((chunk : Page Row) × (s.inner.list (chunk_query rt s q push c.page_number) ≡ ok chunk)
            × (((has_items chunk.items ≡ false) × (c' ≡ c))
                ⊎ ((ltb (length chunk.items) scan_chunk ≡ true)
                    × (c' ≡ after_chunk rt s q push c chunk.items))))
  unfolding round
  round_stop c c' h = elim (Bool-cases (wants_more rt s q push c)) [
    | inr off ↦ inl (off, ground (arith, off))
    | inl on ↦ elim (Result-cases (s.inner.list (chunk_query rt s q push c.page_number))) [
      | inr (e, r) ↦ absurd (ground (arith, r, on))
      | inl (chunk, e) ↦ inr (chunk, e, ground (arith, e, on))
    ]
  ]

module _ (rt : Runtime) (s : Shim) (q : ListQuery) (push : Pushed) (rows : List Row)
    (safe : IsSafe s q push) (paginates : s.inner.capabilities.server_paginate ≡ true)
    (unsorted : has_items q.sort ≡ false) (honours : Honours rt s.inner rows) where
  abbrev source : List Row
  source = base rt s q push rows safe paginates unsorted honours

  abbrev local : List Row → List Row
  local = local_part rt s q push

  abbrev target : List Row
  target = local source

  -- Before round k + 1 the first k chunks have been gone through.
  record Gathered (k : ℕ) (c : Scan) : Type 0 where
    at : c.page_number ≡ suc k
    from : c.matched ≡ local (take (k * 500) source)

  -- The end: what was found in a first part of the source, and that is all of it or the page is
  -- full or the budget is spent.
  record IsEnough (c : Scan) : Type 0 where
    seen : ℕ
    from : c.matched ≡ local (take seen source)
    why : (wants_more rt s q push c ≡ false) ⊎ (c.matched ≡ target)

  matched-after :
      (k : ℕ) (c : Scan) (chunk : Page Row)
      → Gathered k c
      → s.inner.list (chunk_query rt s q push c.page_number) ≡ ok chunk
      → (chunk.items ≡ slice (k * 500) 500 source)
        × ((after_chunk rt s q push c chunk.items).matched ≡ local (take (k * 500 + 500) source))
  unfolding after_chunk
  matched-after k c chunk g e =
      let items : chunk.items ≡ slice (k * 500) 500 source =
        chunk-items rt s q push rows safe paginates unsorted honours k chunk
          (sym (ap (λ n. s.inner.list (chunk_query rt s q push n)) g.at) ∙ e) in
      (
        items,
        ap₂ (λ xs ys. xs ++ ys) g.from (kept_of-part rt s q push chunk.items ∙ ap local items)
            ∙ sym (
                part-append rt s q push (not push.filter) (not push.search) (take (k * 500) source)
                  (slice (k * 500) 500 source))
            ∙ ap local (take-append-slice (k * 500) 500 source),
      )

  empty-nil : (xs : List Row) → has_items xs ≡ false → xs ≡ []
  empty-nil [] h = refl
  empty-nil (x ∷ xs) h = cc

  -- A chunk that is not full is the last.
  last_chunk :
      (k : ℕ) (xs : List Row)
      → xs ≡ slice (k * 500) 500 source
      → length xs < 500
      → length source ≤ k * 500 + 500
  last_chunk k xs e short =
      omega
        (arith, ap length e, length-take 500 (drop (k * 500) source), length-drop (k * 500) source)

  empty_chunk :
      (k : ℕ) (xs : List Row)
      → xs ≡ slice (k * 500) 500 source
      → has_items xs ≡ false
      → length source ≤ k * 500
  empty_chunk k xs e none_left = omega (
    arith,
    ap length (empty-nil xs none_left),
    ap length e,
    length-take 500 (drop (k * 500) source),
    length-drop (k * 500) source,
  )

  stop-IsEnough :
      (k : ℕ) (c c' : Scan) → Gathered k c → round rt s q push c ≡ stop (ok c') → IsEnough c'
  stop-IsEnough k c c' g h = elim (round_stop rt s q push c c' h) [
    | inl (off, same) ↦ record {
      seen = k * 500;
      from = ap (λ x. x.matched) same ∙ g.from;
      why = inl (ap (wants_more rt s q push) same ∙ off);
    }
    | inr (chunk, listed, inl (empty, same)) ↦
        let (items, _) = matched-after k c chunk g listed in
        let kept : c'.matched ≡ local (take (k * 500) source) = ap (λ x. x.matched) same ∙ g.from in
        record {
          seen = k * 500;
          from = kept;
          why =
              inr (
                kept
                ∙ ap local (take_all (k * 500) source (empty_chunk k chunk.items items empty)));
        }
    | inr (chunk, listed, inr (short, same)) ↦
        let (items, matched) = matched-after k c chunk g listed in
        let kept : c'.matched ≡ local (take (k * 500 + 500) source) =
          ap (λ x. x.matched) same ∙ matched in
        record {
          seen = k * 500 + 500;
          from = kept;
          why = inr (
              kept
              ∙ ap local (
                  take_all (k * 500 + 500) source
                    (last_chunk k chunk.items items (ltb→lt (length chunk.items) 500 short))));
        }
  ]

  again-Gathered :
      (k : ℕ) (c c' : Scan) → Gathered k c → round rt s q push c ≡ again c' → Gathered (suc k) c'
  unfolding after_chunk
  again-Gathered k c c' g h =
      let (_, chunk, listed, _, same) = round-again rt s q push c c' h in
      record {
        at = ap (λ x. x.page_number) same ∙ omega (arith, g.at);
        from =
            ap (λ x. x.matched) same
            ∙ (matched-after k c chunk g listed).1
            ∙ ap (λ n. local (take n source)) (next_chunk k);
      }
    where
      next_chunk : (j : ℕ) → j * 500 + 500 ≡ suc j * 500
      next_chunk j = omega arith

  scan-IsEnough :
      (fuel k : ℕ) (c c' : Scan)
      → Gathered k c
      → scan rt s q push fuel c ≡ some (ok c')
      → IsEnough c'
  unfolding scan
  scan-IsEnough zero k c c' g h = cc
  scan-IsEnough (suc fuel) k c c' g h = elim (scan_step rt s q push fuel c) [
    | inl (r, stopped, e) ↦ stop-IsEnough k c c' g cc
    | inr (c'', more, e) ↦
        scan-IsEnough fuel (suc k) c'' c' (again-Gathered k c c'' g more) (sym e ∙ h)
  ]

  abbrev Cut : Scan → Page Row → Type 0
  Cut c answer =
      (answer.items ≡ slice (offset q) q.page_size c.matched)
      × (answer.has_more ≡ some (ltb (offset q + q.page_size) (length c.matched)))

  stream_page-Cut :
      (c : Scan) (answer : Page Row)
      → stream_page rt s q push c ≡ ok answer
      → Cut c answer × ((needed q ≤ length c.matched) ⊎ (c.scanned < s.max_scan_rows))
  unfolding stream_page
  stream_page-Cut c answer h = ground arith

  full_page :
      (c : Scan)
      → wants_more rt s q push c ≡ false
      → (needed q ≤ length c.matched) ⊎ (s.max_scan_rows ≤ c.scanned)
  unfolding wants_more
  full_page c h = ground arith

  -- Rows that come behind a full page and one more row change nothing.
  more_rows :
      (xs ys : List Row)
      → needed q ≤ length xs
      → (slice (offset q) q.page_size (xs ++ ys) ≡ slice (offset q) q.page_size xs)
        × (ltb (offset q + q.page_size) (length (xs ++ ys))
            ≡ ltb (offset q + q.page_size) (length xs))
  more_rows xs ys h = (
    slice-append_left (offset q) q.page_size xs ys (omega arith),
    ground (arith, length-append xs ys),
  )

  Cut-of_full :
      (c : Scan) (answer : Page Row)
      → IsEnough c
      → Cut c answer
      → needed q ≤ length c.matched
      → (answer.items ≡ slice (offset q) q.page_size target)
        × (answer.has_more ≡ some (ltb (offset q + q.page_size) (length target)))
  Cut-of_full c answer enough cut full =
      let rest : List Row = local (drop enough.seen source) in
      let whole : c.matched ++ rest ≡ target =
        ap (λ xs. xs ++ rest) enough.from
        ∙ sym (
            part-append rt s q push (not push.filter) (not push.search) (take enough.seen source)
              (drop enough.seen source))
        ∙ ap local (take-append-drop enough.seen source) in
      let (items, more) = more_rows c.matched rest full in
      (
        cut.0 ∙ sym items ∙ ap (slice (offset q) q.page_size) whole,
        cut.1 ∙ ap some (sym more ∙ ap (λ xs. ltb (offset q + q.page_size) (length xs)) whole),
      )

  -- The page that is cut from enough rows is the page of all that there is to find.
  page-IsEnough :
      (c : Scan) (answer : Page Row)
      → IsEnough c
      → stream_page rt s q push c ≡ ok answer
      → (answer.items ≡ slice (offset q) q.page_size target)
        × (answer.has_more ≡ some (ltb (offset q + q.page_size) (length target)))
  page-IsEnough c answer enough h =
      let (cut, why_ok) = stream_page-Cut c answer h in
      elim enough.why [
        | inr all_found ↦ (
          cut.0 ∙ ap (slice (offset q) q.page_size) all_found,
          cut.1 ∙ ap (λ xs. some (ltb (offset q + q.page_size) (length xs))) all_found,
        )
        | inl off ↦ elim why_ok [
          | inl full ↦ Cut-of_full c answer enough cut full
          | inr room ↦ elim (full_page c off) [
            | inl full ↦ Cut-of_full c answer enough cut full
            | inr spent ↦ absurd (omega arith)
          ]
        ]
      ]

  -- A page of `_stream` holds the rows of its place among all that match, and says whether more
  -- follow.
  pub stream-page :
      (answer : Page Row)
      → stream rt s q push ≡ some (ok answer)
      → (answer.items ≡ slice (offset q) q.page_size target)
        × (answer.has_more ≡ some (ltb (offset q + q.page_size) (length target)))
  unfolding stream
  stream-page answer h = go (scan rt s q push (s.max_scan_rows + 1) scan_start) refl
    where
      go :
          (o : Option (Result Scan))
          → scan rt s q push (s.max_scan_rows + 1) scan_start ≡ o
          → (answer.items ≡ slice (offset q) q.page_size target)
            × (answer.has_more ≡ some (ltb (offset q + q.page_size) (length target)))
      go none e =
          let out : ◌≡◌ {A = Option (Result (Page Row))} none (some (ok answer)) =
            rw (e, stream) at h in
          cc
      go (some (raise x)) e =
          let out : ◌≡◌ {A = Option (Result (Page Row))} (some (raise x)) (some (ok answer)) =
            rw (e, stream) at h in
          cc
      go (some (ok c)) e =
          let out : some (stream_page rt s q push c) ≡ some (ok answer) = rw (e, stream) at h in
          page-IsEnough c answer
            (scan-IsEnough (s.max_scan_rows + 1) 0 scan_start c
              (record {
                at = refl;
                from = sym (part-nil rt s q push (not push.filter) (not push.search));
              })
              e)
            cc
