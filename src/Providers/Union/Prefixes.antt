-- ===== src/Providers/Union/Prefixes.antt =====
-- A row of a list is found again by the key that the list shows.
use crm_starter.Prelude.{
  ◌≡◌, ◌∙◌, refl, ap, Bool, true, false, not, ◌&&◌, String, none, some, List, [], ◌∷◌, ◌++◌, arith,
  keep, all, ◌==◌, map, if◌then◌else◌,
}
use package.text.Mathlib.TextEquality.{eq_iff}
use crm_starter.Prelude.Assoc
use crm_starter.Prelude.Assoc.{lookup-insert}
use crm_starter.Core.Value.{Text, Value, text, null, Runtime, Row, Record, pk, str, text_eq}
use crm_starter.Core.Value.Equality.{text_eq_refl}
use crm_starter.Core.Results.{ok}
use crm_starter.Providers.Union.{
  Source, Union, mem, labels, stamp, partition_colon, unprefix, first_found,
}
use crm_starter.Providers.Union as Union_of

abbrev pub no_colon : Text → Bool
no_colon t = all (λ c. not (c == b':')) t

partition_colon-append :
    (label rest : Text)
    → no_colon label ≡ true
    → partition_colon (label ++ (b':' ∷ rest)) ≡ some (label, rest)
unfolding partition_colon
partition_colon-append [] rest h = refl
partition_colon-append (c ∷ label) rest h =
    rw (partition_colon-append label rest (ground (arith, h))) (ground (arith, h))

-- Labels of which no two are the same.
abbrev pub distinct : List Text → Bool
distinct [] = true
distinct (l ∷ ls) = not (mem ls l) && distinct ls

-- The record of a row.
abbrev pub record_of : Union → Row → Record
record_of u row = record { data_of = row; pk_field = u.pk_field }

pk-insert :
    (field : String) (v : Value) (row : Row)
    → pk (record { data_of = Assoc.insert field v row; pk_field = field }) ≡ v
pk-insert field v row =
    ap (λ o. elim o [ none ↦ null | some w ↦ w ])
      (lookup-insert field field v row
        ∙ ap (λ b. if b then some v else Assoc.lookup field row) ((eq_iff field field).1 refl))

pk-stamp :
    (rt : Runtime) (u : Union) (l : Text) (row : Row)
    → u.prefixed ≡ true
    → pk (record_of u (stamp rt u l row)) ≡ text (l ++ (b':' ∷ str rt (pk (record_of u row))))
unfolding stamp
pk-stamp rt u l row h = rw h (pk-insert u.pk_field _ (Assoc.insert u.source_field (text l) row))

text_eq_sym : (s t : Text) → text_eq s t ≡ text_eq t s
text_eq_sym [] [] = refl
text_eq_sym [] (b ∷ t) = refl
text_eq_sym (a ∷ s) [] = refl
text_eq_sym (a ∷ s) (b ∷ t) = ground (arith, text_eq_sym s t)

nobody :
    (ts : List Source) (l : Text)
    → mem (map (λ t. t.label) ts) l ≡ false
    → keep (λ t. text_eq t.label l) ts ≡ []
nobody [] l h = refl
nobody (t ∷ ts) l h = ground (arith, h, text_eq_sym t.label l, nobody ts l)

not_later :
    (before after : List Source) (s : Source) (l : Text)
    → mem (map (λ t. t.label) (before ++ (s ∷ after))) l ≡ false
    → text_eq l s.label ≡ false
not_later [] after s l h = ground (arith, h)
not_later (t ∷ before) after s l h = not_later before after s l (ground (arith, h))

owner :
    (before after : List Source) (s : Source)
    → distinct (map (λ t. t.label) (before ++ (s ∷ after))) ≡ true
    → keep (λ t. text_eq t.label s.label) (before ++ (s ∷ after)) ≡ s ∷ []
owner [] after s h =
    rw (text_eq_refl s.label) (ap (◌∷◌ s) (nobody after s.label (ground (arith, h))))
owner (t ∷ before) after s h =
    rw (not_later before after s t.label (ground (arith, h)))
      (owner before after s (ground (arith, h)))

-- Where the sources have labels of their own that hold no colon, the key that the union shows for a
-- row leads back to the one source that has the row, and to the text of the key that it has there.
pub unprefix-stamp :
    (rt : Runtime) (u : Union) (before after : List Source) (s : Source) (row : Row)
    → u.prefixed ≡ true
    → u.sources ≡ before ++ (s ∷ after)
    → distinct (labels u) ≡ true
    → no_colon s.label ≡ true
    → unprefix rt u (pk (record_of u (stamp rt u s.label row)))
      ≡ (s ∷ [], text (str rt (pk (record_of u row))))
unfolding unprefix
unprefix-stamp rt u before after s row h e d c =
    ap (unprefix rt u) (pk-stamp rt u s.label row h)
    ∙ rw (h, partition_colon-append s.label (str rt (pk (record_of u row))) c)
        (rw (ap (keep (λ t. text_eq t.label s.label)) e ∙ owner before after s (rw e at d)) refl)

-- A row that is listed is found again by the key that it is listed under, if its source finds it by
-- the text of its own key; no other source is asked.
pub get-stamp_prefixed :
    (rt : Runtime) (u : Union) (before after : List Source) (s : Source) (row : Row)
    → u.prefixed ≡ true
    → u.sources ≡ before ++ (s ∷ after)
    → distinct (labels u) ≡ true
    → no_colon s.label ≡ true
    → s.get (text (str rt (pk (record_of u row)))) ≡ ok (some (record_of u row))
    → Union_of.get rt u (pk (record_of u (stamp rt u s.label row)))
      ≡ ok (some (record_of u (stamp rt u s.label row)))
unfolding Union_of.get first_found
get-stamp_prefixed rt u before after s row h e d c found =
    rw (unprefix-stamp rt u before after s row h e d c, found) refl
