-- ===== src/Core/Placement/Places.antt =====
-- Every table is in one place.
use crm_starter.Prelude.{
  ◌≡◌, ◌∙◌, refl, ap, Bool, true, false, not, ◌&&◌, ◌||◌, Option, some, List, [], ◌∷◌, arith, any,
  keep, map, Bool-cases, Option-cases, inl, inr,
}
use mathlib.Core.Path.{subst}
use crm_starter.Prelude.Assoc.{some-inj}
use crm_starter.Prelude.Sort as Order_by
use crm_starter.Prelude.Sort.{insert}
use crm_starter.Core.Value.{Text, Runtime, text_eq, text_lt}
use crm_starter.Core.Value.Equality.{any-keep, text_eq→eq, text_eq_refl}
use crm_starter.Core.Placement.{
  Placement, Resource, includes, claimed_by, connection_for, is_elsewhere, tables_on, once,
  connections, placement,
}

any-insert :
    (f : Text → Bool) (lt : Text → Text → Bool) (x : Text) (xs : List Text)
    → any f (insert lt x xs) ≡ (f x || any f xs)
unfolding insert
any-insert f lt x [] = refl
any-insert f lt x (y ∷ ys) = ground (arith, any-insert f lt x ys)

any-sort :
    (f : Text → Bool) (lt : Text → Text → Bool) (xs : List Text)
    → any f (Order_by.sort lt xs) ≡ any f xs
unfolding Order_by.sort
any-sort f lt [] = refl
any-sort f lt (x ∷ xs) =
    any-insert f lt x (Order_by.sort lt xs) ∙ ap (◌||◌ (f x)) (any-sort f lt xs)

includes-once : (ts : List Text) (t : Text) → includes (once ts) t ≡ includes ts t
unfolding once
includes-once [] t = refl
includes-once (s ∷ ts) t = elim (Bool-cases (text_eq t s)) [
  | inl e ↦ ground (arith, e, ap (includes (once ts)) (text_eq→eq t s e), includes-once ts t)
  | inr e ↦ ground (arith, e, includes-once ts t)
]

claimed_by-includes :
    (claims : List (Text × Text)) (table c : Text)
    → claimed_by table claims ≡ some c
    → includes (map (λ e. e.1) claims) c ≡ true
unfolding claimed_by
claimed_by-includes [] table c h = cc
claimed_by-includes ((name, connection) ∷ claims) table c h =
    elim (Bool-cases (text_eq name table)) [
      | inl e ↦
          subst (λ x. (text_eq x connection || includes (map (λ y. y.1) claims) x) ≡ true)
            (some-inj (rw e at h)) (ground (arith, text_eq_refl connection))
      | inr e ↦ ground (arith, claimed_by-includes claims table c (rw e at h))
    ]

listed_claim :
    (p : Placement) (c : Text)
    → includes (map (λ e. e.1) p.claimed) c ≡ true
    → includes (connections p) c ≡ true
unfolding connections
listed_claim p c h = ground (
  arith,
  h,
  any-sort (text_eq c) text_lt
      (keep (λ d. not (text_eq d p.default)) (once (map (λ e. e.1) p.claimed))),
  any-keep (λ d. not (text_eq d p.default)) (once (map (λ e. e.1) p.claimed)) c,
  includes-once (map (λ e. e.1) p.claimed) c,
)

listed_default : (p : Placement) → includes (connections p) p.default ≡ true
unfolding connections
listed_default p = ground (arith, text_eq_refl p.default)

listed : (p : Placement) (t : Text) → includes (connections p) (connection_for p t) ≡ true
unfolding connection_for
listed p t = elim (Option-cases (claimed_by t p.claimed)) [
  | inl e ↦ rw (connection_for, e) (listed_default p)
  | inr (c, e) ↦ rw (connection_for, e) (listed_claim p c (claimed_by-includes p.claimed t c e))
]

-- A known table that is not elsewhere is on one connection, which the placement lists, and on no other.
pub one_place :
    (p : Placement) (known : List Text) (t : Text)
    → includes known t ≡ true
    → is_elsewhere p t ≡ false
    → (c : Text) × (includes (connections p) c ≡ true)
      × (includes (tables_on p c known) t ≡ true)
      × ((d : Text) → includes (tables_on p d known) t ≡ text_eq c d)
unfolding tables_on
one_place p known t k e = (
  connection_for p t,
  listed p t,
  on (connection_for p t) ∙ text_eq_refl (connection_for p t),
  on,
)
  where
    on : (d : Text) → includes (tables_on p d known) t ≡ text_eq (connection_for p t) d
    on d =
        any-keep (λ s. not (is_elsewhere p s) && text_eq (connection_for p s) d) known t
        ∙ ground (arith, k, e)

-- A table that some resource places on a connection with tables is never elsewhere.
claimed_here :
    (rt : Runtime) (tabular : Text → Option Bool) (default : Text) (resources : List Resource)
    (t : Text)
    → includes (map (λ e. e.0) (placement rt tabular default resources).claimed) t ≡ true
    → is_elsewhere (placement rt tabular default resources) t ≡ false
unfolding placement
claimed_here rt tabular default resources t h =
    any-keep
      (λ s. not (includes (map (λ e. e.0) (placement rt tabular default resources).claimed) s)) _ t
    ∙ ground (arith, h)
