-- ===== src/Providers/Union/Routing.antt =====
-- `_split` takes a filter apart into the sources to visit and the rows to take from them.
use crm_starter.Prelude.{
  ◌≡◌, ◌∙◌, refl, ap, sym, Bool, true, false, not, ◌&&◌, ◌||◌, Option, none, some, List, [], ◌∷◌,
  arith, all, any, str_eq, if◌then◌else◌, keep, map, all-append, append-all,
}
use mathlib.Core.Path.{ap₂}
use crm_starter.Core.Value.{Text, Value, text, bool, Runtime, Row, get, str, text_eq, py_eq}
use crm_starter.Core.Value.Equality.{any-keep}
use crm_starter.Core.Query.{
  Op, Operand, scalar, sequence, is_valid_condition, Condition, Filter, Filters, cond, group,
  not_of, conj, disj, nil, cons, iter_conditions, iter_children, conditions_of, and_,
}
use crm_starter.Core.Results.{unsupported, Result, ok, raise, ok-inj, ok_bind, ◌>>=◌}
use crm_starter.Providers.Local.{
  equals, match, match_condition, match_value, match_missing, match_tree, match_all, cmp,
  comparable,
}
use crm_starter.Providers.Local.Semantics.{match-and_}
use crm_starter.Providers.Union.{
  Union, mem, labels, stamp, mentions, mentions_any, wanted_texts, chosen, labels_for, meet,
  add_kept, split, split_all, split_optional, admits,
}
use crm_starter.Providers.Union.Stamps.{spared, unwritten, get-stamp, match-stamp, str_eq_sym}

-- A value that `str` keeps apart from all other values: anything but a Boolean.
abbrev pub is_bool : Value → Bool
is_bool (bool b) = true
is_bool v = false

abbrev pub no_bools : Operand → Bool
no_bools (scalar v) = not (is_bool v)
no_bools (sequence vs) = all (λ v. not (is_bool v)) vs

-- A condition that the union can route: it does not ask for a prefixed key, and on the source column
-- it compares with no Boolean.
abbrev pub routable : Union → Condition → Bool
routable u c =
    spared u c.field
    && (not (str_eq c.field u.source_field)
        || (is_valid_condition c.op c.value && no_bools c.value))

kept_in :
    (p : Text → Bool) (every ls : List Text) (l : Text)
    → ok (keep p every) ≡ ok ls
    → mem every l ≡ true
    → p l ≡ mem ls l
kept_in p every ls l c m = ground (arith, m, ap (λ k. mem k l) (ok-inj c), any-keep p every l)

admits-meet :
    (a b : Option (List Text)) (l : Text) → admits (meet a b) l ≡ (admits a l && admits b l)
admits-meet none b l = refl
admits-meet (some a) none l = ground arith
admits-meet (some a) (some b) l = ground (arith, any-keep (mem b) a l)

module _ (rt : Runtime) where
  -- A text equals a value when it is its `str`.
  equals-str :
      (l : Text) (v : Value) → is_bool v ≡ false → equals rt (text l) v ≡ text_eq l (str rt v)
  unfolding cmp comparable py_eq
  equals-str l (bool b) h = cc
  equals-str l (text t) h = ground arith
  equals-str l _ h = refl

  any-equals :
      (l : Text) (vs : List Value)
      → all (λ v. not (is_bool v)) vs ≡ true
      → any (equals rt (text l)) vs ≡ mem (map (str rt) vs) l
  any-equals l [] h = refl
  any-equals l (v ∷ vs) h =
      ap₂ ◌||◌ (equals-str l v (ground (arith, h))) (any-equals l vs (ground (arith, h)))

  chosen-match :
      (op : Op) (v : Operand) (every ls : List Text) (l : Text)
      → (is_valid_condition op v && no_bools v) ≡ true
      → mem every l ≡ true
      → chosen op (wanted_texts rt op v) every ≡ ok ls
      → match_value rt op (text l) v ≡ mem ls l
  unfolding match_value is_valid_condition cmp comparable py_eq
  chosen-match Op.eq (scalar v) every ls l h m c =
      equals-str l v (ground (arith, h))
      ∙ ground (arith, kept_in (mem (str rt v ∷ [])) every ls l c m)
  chosen-match Op.eq (sequence vs) every ls l h m c =
      ground (arith, kept_in (mem (rt.show_list vs ∷ [])) every ls l c m)
  chosen-match Op.ne (scalar v) every ls l h m c =
      ap not (equals-str l v (ground (arith, h)))
      ∙ ground (arith, kept_in (λ k. not (mem (str rt v ∷ []) k)) every ls l c m)
  chosen-match Op.ne (sequence vs) every ls l h m c =
      ground (arith, kept_in (λ k. not (mem (rt.show_list vs ∷ []) k)) every ls l c m)
  chosen-match Op.in_ (sequence vs) every ls l h m c =
      any-equals l vs h ∙ kept_in (mem (map (str rt) vs)) every ls l c m
  chosen-match Op.not_in (sequence vs) every ls l h m c =
      ap not (any-equals l vs h) ∙ kept_in (λ k. not (mem (map (str rt) vs) k)) every ls l c m
  chosen-match _ _ every ls l h m c = cc

  -- A filter that does not mention the source column is a filter of unwritten columns.
  mutual
    unfolding mentions iter_conditions

    unmentioned :
        (u : Union) (f : Filter)
        → mentions u.source_field f ≡ false
        → all (routable u) (iter_conditions f) ≡ true
        → all (λ c. unwritten u c.field) (iter_conditions f) ≡ true
    unmentioned u (cond c) h k = ground (arith, h, k, str_eq_sym u.source_field c.field)
    unmentioned u (not_of f) h k = unmentioned u f h k
    unmentioned u (group op fs) h k = unmentioned_any u fs h k

    unmentioned_any :
        (u : Union) (fs : Filters)
        → mentions_any u.source_field fs ≡ false
        → all (routable u) (iter_children fs) ≡ true
        → all (λ c. unwritten u c.field) (iter_children fs) ≡ true
    unmentioned_any u nil h k = refl
    unmentioned_any u (cons f fs) h k =
        let k' = all-append (routable u) (iter_conditions f) (iter_children fs) k in
        append-all (λ c. unwritten u c.field) (iter_conditions f) (iter_children fs)
          (unmentioned u f (ground (arith, h)) k'.0) (unmentioned_any u fs (ground (arith, h)) k'.1)

  abbrev on_value : Condition → Option Value → Bool
  on_value c none = match_missing c.op
  on_value c (some v) = match_value rt c.op v c.value

  match-all-group :
      (row : Row) (fs : List Filter)
      → match rt row (and_ (map some fs)) ≡ all (match_tree rt row) fs
  match-all-group row fs = match-and_ rt row (map some fs) ∙ all_some fs
    where
      all_some : (gs : List Filter) → all (match rt row) (map some gs) ≡ all (match_tree rt row) gs
      all_some [] = refl
      all_some (g ∷ gs) = ap (◌&&◌ (match_tree rt row g)) (all_some gs)

  all-add_kept :
      (row : Row) (o : Option Filter) (fs : List Filter)
      → all (match_tree rt row) (add_kept o fs) ≡ (match rt row o && all (match_tree rt row) fs)
  all-add_kept row none fs = refl
  all-add_kept row (some f) fs = refl

  four_and : (a b c d : Bool) → ((a && b) && (c && d)) ≡ ((a && c) && (b && d))
  four_and a b c d = ground arith

module _ (rt : Runtime) (u : Union) (l : Text) (h : mem (labels u) l ≡ true) (row : Row) where
  split_condition :
      (c : Condition) (r : Option (List Text) × Option Filter)
      → routable u c ≡ true
      → split rt u (cond c) ≡ ok r
      → match_condition rt (stamp rt u l row) c ≡ (admits r.0 l && match rt row r.1)
  unfolding split labels_for match_condition match_tree
  split_condition c r k e = go (str_eq c.field u.source_field) refl e
    where
      seen :
          (b : Bool)
          → str_eq c.field u.source_field ≡ b
          → get (stamp rt u l row) c.field ≡ (if b then some (text l) else get row c.field)
      seen b s =
          get-stamp rt u l row c.field (ground (arith, k))
          ∙ ap (λ x. if x then some (text l) else get row c.field)
              (str_eq_sym u.source_field c.field ∙ s)

      answer :
          (z : Option (List Text) × Option Filter)
          → ok z ≡ ok r
          → (admits z.0 l && match rt row z.1) ≡ (admits r.0 l && match rt row r.1)
      answer z same = ap (λ y. admits y.0 l && match rt row y.1) (ok-inj same)

      go :
          (b : Bool)
          → str_eq c.field u.source_field ≡ b
          → ◌≡◌ {A = Result (Option (List Text) × Option Filter)}
              (if b
                then labels_for rt u c >>= (λ ls. ok (some ls, none))
                else ok (none, some (cond c)))
              (ok r)
          → match_condition rt (stamp rt u l row) c ≡ (admits r.0 l && match rt row r.1)
      go true s d =
          let (ls, chose, same) = ok_bind (labels_for rt u c) (λ ls. ok (some ls, none)) r d in
          ap (on_value rt c) (seen true s)
          ∙ chosen-match rt c.op c.value (labels u) ls l (ground (arith, k, s)) h chose
          ∙ ground arith
          ∙ answer (some ls, none) same
      go false s d = ap (on_value rt c) (seen false s) ∙ answer (none, some (cond c)) d

  -- A filter that is pushed down whole.
  whole :
      (f : Filter) (r : Option (List Text) × Option Filter)
      → all (routable u) (iter_conditions f) ≡ true
      → (b : Bool) → mentions u.source_field f ≡ b
      → ◌≡◌ {A = Result (Option (List Text) × Option Filter)}
          (if b then raise unsupported else ok (none, some f))
          (ok r)
      → match_tree rt (stamp rt u l row) f ≡ (admits r.0 l && match rt row r.1)
  whole f r k true m e = cc
  whole f r k false m e =
      match-stamp rt u l row (some f) (unmentioned rt u f m k)
      ∙ ap (λ y. admits y.0 l && match rt row y.1) (ok-inj e)

  mutual
    unfolding split iter_conditions match_tree

    -- What is left of a filter after `_split`, with the sources that it allows, says of a row of any
    -- source what the filter says of the stamped row.
    split-match :
        (f : Filter) (r : Option (List Text) × Option Filter)
        → all (routable u) (iter_conditions f) ≡ true
        → split rt u f ≡ ok r
        → match_tree rt (stamp rt u l row) f ≡ (admits r.0 l && match rt row r.1)
    split-match (cond c) r k e = split_condition c r (ground (arith, k)) e
    split-match (not_of f) r k e = whole (not_of f) r k (mentions u.source_field (not_of f)) refl e
    split-match (group disj fs) r k e =
        whole (group disj fs) r k (mentions u.source_field (group disj fs)) refl e
    split-match (group conj fs) r k e =
        let (b, took, same) =
          ok_bind (split_all rt u fs) (λ b. ok (b.0, and_ (map some b.1))) r e in
        split_all-match fs b k took
        ∙ ap (◌&&◌ (admits b.0 l)) (sym (match-all-group rt row b.1))
        ∙ ap (λ y. admits y.0 l && match rt row y.1) (ok-inj same)

    split_all-match :
        (fs : Filters) (r : Option (List Text) × List Filter)
        → all (routable u) (iter_children fs) ≡ true
        → split_all rt u fs ≡ ok r
        → match_all rt (stamp rt u l row) fs ≡ (admits r.0 l && all (match_tree rt row) r.1)
    split_all-match nil r k e = ap (λ y. admits y.0 l && all (match_tree rt row) y.1) (ok-inj e)
    split_all-match (cons f fs) r k e =
        let (a, first, rest) =
          ok_bind (split rt u f)
            (λ a. split_all rt u fs >>= (λ b. ok (meet a.0 b.0, add_kept a.1 b.1))) r e in
        let (b, others, same) =
          ok_bind (split_all rt u fs) (λ b. ok (meet a.0 b.0, add_kept a.1 b.1)) r rest in
        let k' = all-append (routable u) (iter_conditions f) (iter_children fs) k in
        ap₂ ◌&&◌ (split-match f a k'.0 first) (split_all-match fs b k'.1 others)
        ∙ four_and rt (admits a.0 l) (match rt row a.1) (admits b.0 l) (all (match_tree rt row) b.1)
        ∙ ap₂ ◌&&◌ (sym (admits-meet a.0 b.0 l)) (sym (all-add_kept rt row a.1 b.1))
        ∙ ap (λ y. admits y.0 l && all (match_tree rt row) y.1) (ok-inj same)

  pub split_optional-match :
      (f : Option Filter) (r : Option (List Text) × Option Filter)
      → all (routable u) (conditions_of f) ≡ true
      → split_optional rt u f ≡ ok r
      → match rt (stamp rt u l row) f ≡ (admits r.0 l && match rt row r.1)
  unfolding split_optional
  split_optional-match none r k e = ap (λ y. admits y.0 l && match rt row y.1) (ok-inj e)
  split_optional-match (some f) r k e = split-match f r k e
