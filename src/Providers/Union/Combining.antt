-- ===== src/Providers/Union/Combining.antt =====
-- What is measured of a group of two sources is combined from what each of them measures.
use crm_starter.Prelude.{
  ℕ, String, ◌+◌, ◌≡◌, refl, ap, sym, ◌∙◌, Bool, true, false, some, List, [], ◌∷◌, ◌++◌, map, keep,
  All, All-keep, keep-append, length, length-append, if◌then◌else◌, Bool-cases, inl, inr, arith,
}
use mathlib.Core.List.{map-append, append-nil}
use crm_starter.Prelude.Int.{ℤ, pos, ◌+ℤ◌, +ℤ_assoc, +ℤ_zero}
use crm_starter.Core.Value.{Value, null, num, bool, int_of, Runtime, Row}
use crm_starter.Core.Results.{ok, ok-inj}
use crm_starter.Core.Aggregates.{Agg, Measure, is_count}
use crm_starter.Providers.Local.{key_lt}
use crm_starter.Providers.Local.Order.{key_lt-IsWeakOrder}
use crm_starter.Providers.Local.Aggregate.{
  measured, is_value, py_add, sum_from, lesser, greater, fold_values, of_values, measure_of, column,
}
use crm_starter.Providers.Union.Aggregate.{is_avg, combine_value}

measured-append :
    (field : String) (xs ys : List Row)
    → measured field (xs ++ ys) ≡ measured field xs ++ measured field ys
measured-append field xs ys =
    ap (keep is_value) (map-append (λ r. column r field) xs ys)
    ∙ keep-append is_value (map (λ r. column r field) xs) (map (λ r. column r field) ys)

module _ (pick : Value → Value → Value)
    (assoc : (a b c : Value) → pick (pick a b) c ≡ pick a (pick b c)) where
  fold-pick :
      (a b : Value) (vs : List Value)
      → fold_values pick (pick a b) vs ≡ pick a (fold_values pick b vs)
  unfolding fold_values
  fold-pick a b [] = refl
  fold-pick a b (v ∷ vs) = ap (λ x. fold_values pick x vs) (assoc a b v) ∙ fold-pick a (pick b v) vs

  -- Two parts are folded as one list is.
  fold-append :
      (a : Value) (vs : List Value) (b : Value) (ws : List Value)
      → fold_values pick a (vs ++ b ∷ ws) ≡ pick (fold_values pick a vs) (fold_values pick b ws)
  unfolding fold_values
  fold-append a [] b ws = fold-pick a b ws
  fold-append a (v ∷ vs) b ws = fold-append (pick a v) vs b ws

lesser_assoc :
    (rt : Runtime) (a b c : Value) → lesser rt (lesser rt a b) c ≡ lesser rt a (lesser rt b c)
lesser_assoc rt a b c =
    let w = key_lt-IsWeakOrder rt in
    ground (
      arith,
      w.negtrans (some c) (some b) (some a),
      w.negtrans (some b) (some c) (some a),
      w.negtrans (some c) (some a) (some b),
      w.asymm (some b) (some a),
      w.asymm (some c) (some b),
      w.asymm (some c) (some a),
    )

greater_assoc :
    (rt : Runtime) (a b c : Value) → greater rt (greater rt a b) c ≡ greater rt a (greater rt b c)
greater_assoc rt a b c =
    let w = key_lt-IsWeakOrder rt in
    ground (
      arith,
      w.negtrans (some a) (some b) (some c),
      w.negtrans (some b) (some a) (some c),
      w.negtrans (some a) (some c) (some b),
      w.asymm (some a) (some b),
      w.asymm (some b) (some c),
      w.asymm (some a) (some c),
    )

-- A sum from n + k is n more than the sum from k.
sum_shift :
    (n k : ℤ) (vs : List Value) (r : Value)
    → sum_from (num k) vs ≡ ok r
    → (t : ℤ) × (r ≡ num t) × (sum_from (num (n +ℤ k)) vs ≡ ok (num (n +ℤ t)))
unfolding sum_from py_add
sum_shift n k [] r h = (k, sym (ok-inj h), refl)
sum_shift n k (num b ∷ vs) r h = rw (+ℤ_assoc n k b) (sum_shift n (k +ℤ b) vs r h)
sum_shift n k (bool b ∷ vs) r h = rw (+ℤ_assoc n k (int_of b)) (sum_shift n (k +ℤ int_of b) vs r h)
sum_shift n k (v ∷ vs) r h = cc

sum_append :
    (k : ℤ) (vs ws : List Value) (t : ℤ)
    → sum_from (num k) vs ≡ ok (num t)
    → sum_from (num k) (vs ++ ws) ≡ sum_from (num t) ws
unfolding sum_from py_add
sum_append k [] ws t h = ap (λ v. sum_from v ws) (ok-inj h)
sum_append k (num b ∷ vs) ws t h = sum_append (k +ℤ b) vs ws t h
sum_append k (bool b ∷ vs) ws t h = sum_append (k +ℤ int_of b) vs ws t h
sum_append k (v ∷ vs) ws t h = cc

sum_combined :
    (vs ws : List Value) (a b : Value)
    → sum_from (num (pos 0)) vs ≡ ok a
    → sum_from (num (pos 0)) ws ≡ ok b
    → sum_from (num (pos 0)) (vs ++ ws) ≡ py_add a b
unfolding py_add
sum_combined vs ws a b h k =
    let (t, a_num, shifted) = sum_shift (pos 0) (pos 0) vs a h in
    let (s, b_num, total) = sum_shift t (pos 0) ws b k in
    rw a_num (
      rw b_num (
        sum_append (pos 0) vs ws t (h ∙ ap ok a_num)
        ∙ (ap (λ x. sum_from (num x) ws) (sym (+ℤ_zero t)) ∙ total)))

combine-null : (rt : Runtime) (agg : Agg) (a : Value) → combine_value rt agg a null ≡ ok a
unfolding combine_value
combine-null rt agg null = refl
combine-null rt agg (num n) = refl
combine-null rt agg a = refl

combine-min :
    (rt : Runtime) (a b : Value)
    → is_value a ≡ true
    → is_value b ≡ true
    → combine_value rt Agg.min a b ≡ ok (lesser rt a b)
unfolding combine_value
combine-min rt null b h k = cc
combine-min rt a null h k = cc
combine-min rt a b h k = refl

combine-max :
    (rt : Runtime) (a b : Value)
    → is_value a ≡ true
    → is_value b ≡ true
    → combine_value rt Agg.max a b ≡ ok (greater rt a b)
unfolding combine_value
combine-max rt null b h k = cc
combine-max rt a null h k = cc
combine-max rt a b h k = refl

combine-sum :
    (rt : Runtime) (a b : Value)
    → is_value a ≡ true
    → is_value b ≡ true
    → combine_value rt Agg.sum a b ≡ py_add a b
unfolding combine_value
combine-sum rt null b h k = cc
combine-sum rt a null h k = cc
combine-sum rt a b h k = refl

fold-is_value :
    (pick : Value → Value → Value) (a : Value) (vs : List Value)
    → ((x y : Value) → is_value x ≡ true → is_value y ≡ true → is_value (pick x y) ≡ true)
    → is_value a ≡ true
    → All (λ v. is_value v ≡ true) vs
    → is_value (fold_values pick a vs) ≡ true
unfolding fold_values
fold-is_value pick a [] p h k = h
fold-is_value pick a (v ∷ vs) p h k = fold-is_value pick (pick a v) vs p (p a v h k.0) k.1

if-is_value :
    (b : Bool) (x y : Value)
    → is_value x ≡ true
    → is_value y ≡ true
    → is_value (if b then y else x) ≡ true
if-is_value true x y h k = k
if-is_value false x y h k = h

AllValues : List Value → Type 0
AllValues vs = All (λ v. is_value v ≡ true) vs

values_combined :
    (rt : Runtime) (divide : Value → ℕ → Value) (agg : Agg) (v : Value) (vs : List Value)
    (w : Value) (ws : List Value) (a b : Value)
    → is_count agg ≡ false
    → is_avg agg ≡ false
    → AllValues (v ∷ vs)
    → AllValues (w ∷ ws)
    → of_values rt divide agg (v ∷ vs) ≡ ok a
    → of_values rt divide agg (w ∷ ws) ≡ ok b
    → of_values rt divide agg (v ∷ vs ++ w ∷ ws) ≡ combine_value rt agg a b
unfolding AllValues
values_combined rt divide Agg.count v vs w ws a b c n p q h k = cc
values_combined rt divide Agg.avg v vs w ws a b c n p q h k = cc
values_combined rt divide Agg.sum v vs w ws a b c n p q h k =
    let (t, a_num, _) = sum_shift (pos 0) (pos 0) (v ∷ vs) a h in
    let (s, b_num, _) = sum_shift (pos 0) (pos 0) (w ∷ ws) b k in
    sum_combined (v ∷ vs) (w ∷ ws) a b h k
    ∙ sym (combine-sum rt a b (rw a_num refl) (rw b_num refl))
values_combined rt divide Agg.min v vs w ws a b c n p q h k =
    let there = λ (x : Value) (xs : List Value) (e : AllValues (x ∷ xs)).
      fold-is_value (lesser rt) x xs (λ x y. if-is_value (key_lt rt (some y) (some x)) x y) e.0
        e.1 in
    ap ok (fold-append (lesser rt) (lesser_assoc rt) v vs w ws)
    ∙ (sym (combine-min rt _ _ (there v vs p) (there w ws q))
        ∙ ap (λ x. combine_value rt Agg.min x (fold_values (lesser rt) w ws)) (ok-inj h)
        ∙ ap (combine_value rt Agg.min a) (ok-inj k))
values_combined rt divide Agg.max v vs w ws a b c n p q h k =
    let there = λ (x : Value) (xs : List Value) (e : AllValues (x ∷ xs)).
      fold-is_value (greater rt) x xs (λ x y. if-is_value (key_lt rt (some x) (some y)) x y) e.0
        e.1 in
    ap ok (fold-append (greater rt) (greater_assoc rt) v vs w ws)
    ∙ (sym (combine-max rt _ _ (there v vs p) (there w ws q))
        ∙ ap (λ x. combine_value rt Agg.max x (fold_values (greater rt) w ws)) (ok-inj h)
        ∙ ap (combine_value rt Agg.max a) (ok-inj k))

of_values_combined :
    (rt : Runtime) (divide : Value → ℕ → Value) (agg : Agg) (vs ws : List Value) (a b : Value)
    → is_count agg ≡ false
    → is_avg agg ≡ false
    → AllValues vs
    → AllValues ws
    → of_values rt divide agg vs ≡ ok a
    → of_values rt divide agg ws ≡ ok b
    → of_values rt divide agg (vs ++ ws) ≡ combine_value rt agg a b
unfolding combine_value
of_values_combined rt divide agg [] ws a b c n p q h k =
    k ∙ ap (λ x. combine_value rt agg x b) (ok-inj h)
of_values_combined rt divide agg (v ∷ vs) [] a b c n p q h k =
    ap (of_values rt divide agg) (append-nil (v ∷ vs))
    ∙ (h ∙ (sym (combine-null rt agg a) ∙ ap (combine_value rt agg a) (ok-inj k)))
of_values_combined rt divide agg (v ∷ vs) (w ∷ ws) a b c n p q h k =
    values_combined rt divide agg v vs w ws a b c n p q h k

combine-count :
    (rt : Runtime) (agg : Agg) (x y : ℕ)
    → is_count agg ≡ true
    → combine_value rt agg (num (pos x)) (num (pos y)) ≡ ok (num (pos (x + y)))
unfolding combine_value py_add ◌+ℤ◌
combine-count rt Agg.count x y h = ap (λ n. ok (num n)) (ground arith)
combine-count rt agg x y h = cc

-- What is measured of all rows of a group is combined from what is measured of two parts of it,
-- the first part's rows before the other's. An average is no such measure.
pub measure_of-append :
    (rt : Runtime) (divide : Value → ℕ → Value) (m : Measure) (xs ys : List Row) (a b : Value)
    → is_avg m.agg ≡ false
    → measure_of rt divide m xs ≡ ok a
    → measure_of rt divide m ys ≡ ok b
    → measure_of rt divide m (xs ++ ys) ≡ combine_value rt m.agg a b
unfolding measure_of AllValues
measure_of-append rt divide m xs ys a b n h k = elim (Bool-cases (is_count m.agg)) [
  | inl e ↦ rw e (
      sym (
        ap (λ x. combine_value rt m.agg x b) (sym (ok-inj (rw e at h)))
        ∙ (ap (combine_value rt m.agg (num (pos (length xs)))) (sym (ok-inj (rw e at k)))
            ∙ (combine-count rt m.agg (length xs) (length ys) e
                ∙ ap (λ n. ok (num (pos n))) (sym (length-append xs ys))))))
  | inr e ↦ rw e (
      ap (of_values rt divide m.agg) (measured-append m.field xs ys)
      ∙ of_values_combined rt divide m.agg (measured m.field xs) (measured m.field ys) a b e n
          (All-keep is_value (map (λ r. column r m.field) xs))
          (All-keep is_value (map (λ r. column r m.field) ys)) (rw e at h) (rw e at k))
]
