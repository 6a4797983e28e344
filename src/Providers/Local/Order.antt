-- ===== src/Providers/Local/Order.antt =====
-- The order of `_SortKey`, and `apply_sort`.
use mathlib.Core.List.Perm
use mathlib.Core.List.{Perm}
use crm_starter.Prelude.{
  ℕ, ◌≡◌, ◌∙◌, refl, ap, sym, Bool, true, false, Option, none, some, List, [], ◌∷◌, arith, ltb,
  ◌==◌, if◌then◌else◌, keep, inl, inr, ◌⊎◌,
}
use crm_starter.Prelude.Int.{ℤ, pos, eqb_ℤ, ltb_ℤ}
use crm_starter.Prelude.Sort as Order_by
use crm_starter.Prelude.Sort.{
  ties, keep-ties-sort, IsWeakOrder, IsSorted, sort-perm, sort-IsSorted, keep-sort,
}
use crm_starter.Core.Value.{
  Text, Value, Runtime, Row, null, bool, num, text, date, datetime, text_lt, int_of, get,
}
use crm_starter.Core.Query.{Sort, SortDir, asc, desc}
use crm_starter.Providers.Local.{key_lt, row_lt, apply_sort, midnight}

text_lt-asymm : (s t : Text) → text_lt s t ≡ true → text_lt t s ≡ false
text_lt-asymm s [] h = cc
text_lt-asymm [] (b ∷ t) h = refl
text_lt-asymm (a ∷ s) (b ∷ t) h = ground (arith, text_lt-asymm s t)

text_lt-negtrans : (s t u : Text) → text_lt s t ≡ false → text_lt t u ≡ false → text_lt s u ≡ false
text_lt-negtrans s t [] h k = refl
text_lt-negtrans s [] (c ∷ u) h k = cc
text_lt-negtrans [] (b ∷ t) (c ∷ u) h k = cc
text_lt-negtrans (a ∷ s) (b ∷ t) (c ∷ u) h k = ground (arith, text_lt-negtrans s t u)

-- A sort key as a rank, a number and a text.
record Code : Type 0 where
  rank : ℕ
  number : ℤ
  word : Text

abbrev plain : ℕ → ℤ → Code
plain r n = record { rank = r; number = n; word = [] }

abbrev code : Runtime → Option Value → Code
code rt none = plain 4 (pos 0)
code rt (some null) = plain 4 (pos 0)
code rt (some (bool b)) = plain 0 (int_of b)
code rt (some (date d)) = plain 1 (pos (midnight d))
code rt (some (datetime t)) = plain 1 (pos t)
code rt (some (num n)) = plain 2 n
code rt (some (text t)) = record { rank = 3; number = pos 0; word = rt.casefold t }

abbrev word_lt : Code → Code → Bool
word_lt a b = if eqb_ℤ a.number b.number then text_lt a.word b.word else ltb_ℤ a.number b.number

abbrev code_lt : Code → Code → Bool
code_lt a b = if a.rank == b.rank then word_lt a b else ltb a.rank b.rank

code_lt-asymm : (a b : Code) → code_lt a b ≡ true → code_lt b a ≡ false
code_lt-asymm a b h = ground (arith, text_lt-asymm a.word b.word)

code_lt-negtrans : (a b c : Code) → code_lt a b ≡ false → code_lt b c ≡ false → code_lt a c ≡ false
code_lt-negtrans a b c h k = ground (arith, text_lt-negtrans a.word b.word c.word)

module _ (rt : Runtime) where
  key_lt-code : (a b : Option Value) → key_lt rt a b ≡ code_lt (code rt a) (code rt b)
  unfolding key_lt
  key_lt-code none none = refl
  key_lt-code none (some b) = ground arith
  key_lt-code (some (num a)) (some (num b)) = ground arith
  key_lt-code _ _ = ground arith

  -- `_SortKey.__lt__` orders any two values: it is asymmetric, and "not below" is transitive, also
  -- across values of different kinds and absent columns.
  pub key_lt-IsWeakOrder : IsWeakOrder (key_lt rt)
  key_lt-IsWeakOrder = record {
    asymm = λ a b h.
        key_lt-code b a ∙ code_lt-asymm (code rt a) (code rt b) (sym (key_lt-code a b) ∙ h);
    negtrans = λ a b c h k.
        key_lt-code a c
        ∙ code_lt-negtrans (code rt a) (code rt b) (code rt c) (sym (key_lt-code a b) ∙ h)
            (sym (key_lt-code b c) ∙ k);
  }

  by_dir : (spec : Sort) → (spec.dir ≡ asc) ⊎ (spec.dir ≡ desc)
  by_dir spec = go spec.dir
    where
      go : (d : SortDir) → (d ≡ asc) ⊎ (d ≡ desc)
      go asc = inl refl
      go desc = inr refl

  pub row_lt-IsWeakOrder : (spec : Sort) → IsWeakOrder (row_lt rt spec)
  unfolding row_lt
  row_lt-IsWeakOrder spec =
      let w = key_lt-IsWeakOrder in
      elim (by_dir spec) [
        | inl e ↦ rw e (record {
          asymm = λ x y. w.asymm (get x spec.field) (get y spec.field);
          negtrans = λ x y z. w.negtrans (get x spec.field) (get y spec.field) (get z spec.field);
        })
        | inr e ↦ rw e (record {
          asymm = λ x y. w.asymm (get y spec.field) (get x spec.field);
          negtrans =
              λ x y z h k. w.negtrans (get z spec.field) (get y spec.field) (get x spec.field) k h;
        })
      ]

  -- `apply_sort` returns the rows that it is given, each as often.
  pub apply_sort-perm : (rows : List Row) (sorts : List Sort) → Perm (apply_sort rt rows sorts) rows
  unfolding apply_sort
  apply_sort-perm rows [] = Perm.rfl
  apply_sort-perm rows (spec ∷ sorts) =
      Perm.trans (sort-perm (row_lt rt spec) (apply_sort rt rows sorts))
        (apply_sort-perm rows sorts)

  -- After `apply_sort` no row stands behind one that the first key puts after it; and the rows that
  -- tie on the first key with any row `r` stand as the remaining keys sort them.
  pub apply_sort_lex :
      (rows : List Row) (spec : Sort) (sorts : List Sort) (r : Row)
      → IsSorted (row_lt rt spec) (apply_sort rt rows (spec ∷ sorts))
        × (keep (ties (row_lt rt spec) r) (apply_sort rt rows (spec ∷ sorts))
            ≡ keep (ties (row_lt rt spec) r) (apply_sort rt rows sorts))
  unfolding apply_sort
  apply_sort_lex rows spec sorts r = (
    sort-IsSorted (row_lt rt spec) (row_lt-IsWeakOrder spec) (apply_sort rt rows sorts),
    keep-ties-sort (row_lt rt spec) (row_lt-IsWeakOrder spec) r (apply_sort rt rows sorts),
  )

  -- To drop rows before a sort is to drop them after it.
  pub keep-apply_sort :
      (p : Row → Bool) (rows : List Row) (sorts : List Sort)
      → keep p (apply_sort rt rows sorts) ≡ apply_sort rt (keep p rows) sorts
  unfolding apply_sort
  keep-apply_sort p rows [] = refl
  keep-apply_sort p rows (spec ∷ sorts) =
      keep-sort (row_lt rt spec) (row_lt-IsWeakOrder spec) p (apply_sort rt rows sorts)
      ∙ ap (Order_by.sort (row_lt rt spec)) (keep-apply_sort p rows sorts)
