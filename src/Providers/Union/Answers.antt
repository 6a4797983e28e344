-- ===== src/Providers/Union/Answers.antt =====
-- What `has_more` of a union says where a source gives no total.
use crm_starter.Prelude.{
  ℕ, ◌≡◌, ap, false, none, some, List, [], ◌∷◌, arith, ◌≤◌, ltb, length, map, length-append,
}
use crm_starter.Prelude.Tables.{length-sort, length-map}
use crm_starter.Core.Value.{Text, Runtime, Row}
use crm_starter.Core.Query.{ListQuery, Page}
use crm_starter.Providers.Local.{apply_sort}
use crm_starter.Providers.Local.Lex.{lex_lt, apply_sort-sort}
use crm_starter.Providers.Union.{Union, sum_totals, needed, stamped, stamp, merge}

-- A union whose sources give no total, and that visits one source, says that there are no more rows,
-- on every page and whatever the source holds: no more rows were asked for than the pages so far hold.
pub has_more-one_source :
    (rt : Runtime) (u : Union) (q : ListQuery) (label : Text) (page : Page Row)
    → page.total ≡ none
    → length page.items ≤ needed q
    → (merge rt u q ((label, page) ∷ [])).has_more ≡ some false
unfolding merge sum_totals
has_more-one_source rt u q label page h k = rw h (
    ap some (
      not_above (length (apply_sort rt (stamped rt u ((label, page) ∷ [])) q.sort)) (needed q) few))
  where
    rows : List Row
    rows = stamped rt u ((label, page) ∷ [])

    not_above : (n m : ℕ) → n ≤ m → ltb m n ≡ false
    not_above n m le = ground (arith, le)

    few : length (apply_sort rt rows q.sort) ≤ needed q
    few =
        rw
          (
            apply_sort-sort rt rows q.sort,
            length-sort (lex_lt rt q.sort) rows,
            length-append (map (stamp rt u label) page.items) [],
            length-map (stamp rt u label) page.items,
          )
          (ground (arith, k))
