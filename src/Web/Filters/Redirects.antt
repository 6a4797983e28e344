-- ===== src/Web/Filters/Redirects.antt =====
-- Where a request from the filter builder is redirected to.
use crm_starter.Prelude.{
  ℕ, ◌≡◌, refl, true, false, Option, none, some, List, [], ◌∷◌, ◌++◌, map, somes, All, Bool-cases,
  Option-cases, inl, inr,
}
use mathlib.Core.Path.{subst}
use crm_starter.Prelude.Sort as Order_by
use crm_starter.Core.Value.{Text, Runtime, text_eq}
use crm_starter.Core.Results.{Error, ok, raise, Result-cases, ok-inj}
use crm_starter.Core.Query.{Op}
use crm_starter.Core.Placement.{strip}
use crm_starter.Providers.Local.{is_prefix}
use crm_starter.Auth.Passwords.{codes, is_empty}
use crm_starter.Web.Filters.{
  Field, Resource, prefix, panel_prefix, parse_op, is_unary, supports, field_named,
}
use crm_starter.Web.Filters.Parsing.{filter_key}
use crm_starter.Web.Filters.Panel.{
  Pairs, has_panel_params, PanelRow, PanelRows, take_pair, collect, canonical_pair, Digits, keyed,
  canonical_params, text_or_empty, order_lt, pair_for,
}
use crm_starter.Web.Filters.Safety.{name-found}

module _ (rt : Runtime) (d : Digits) (r : Resource) where
  -- The key is the canonical one of a field of the resource and an operator that it supports.
  abbrev pub IsCanonical : Text → Type 0
  IsCanonical key =
      (f : Field) × (op : Op) × (field_named (codes f.name) r.fields ≡ some f)
      × (supports f.supported_ops op ≡ true)
      × (key ≡ filter_key (codes f.name) op)

  -- No pair of the panel, no page, and no filter but a canonical one.
  abbrev pub IsSettled : Text × Text → Type 0
  IsSettled p =
      (is_prefix panel_prefix p.0 ≡ false)
      × (text_eq p.0 (codes "page") ≡ false)
      × (is_prefix prefix p.0 ≡ true → IsCanonical p.0)

  All-append : (xs ys : Pairs) → All IsSettled xs → All IsSettled ys → All IsSettled (xs ++ ys)
  All-append [] ys h k = k
  All-append (x ∷ xs) ys h k = (h.0, All-append xs ys h.1 k)

  take_pair-kept :
      (p : Text × Text) (rows : PanelRows) (kept : Pairs)
      → All IsSettled kept
      → All IsSettled (take_pair p (rows, kept)).1
  unfolding take_pair
  take_pair-kept (key, v) rows kept h = elim (Bool-cases (is_prefix panel_prefix key)) [
    | inl e ↦ rw e h
    | inr e ↦ elim (Bool-cases (is_prefix prefix key)) [
      | inl f ↦ rw e (rw f h)
      | inr f ↦ elim (Bool-cases (text_eq key (codes "page"))) [
        | inl g ↦ rw e (rw f (rw g h))
        | inr g ↦ rw e (rw f (rw g (All-append kept ((key, v) ∷ []) h ((e, g, (λ k. cc)), tt))))
      ]
    ]
  ]

  collect-kept :
      (items : Pairs) (found : PanelRows × Pairs)
      → All IsSettled found.1
      → All IsSettled (collect items found).1
  unfolding collect
  collect-kept [] found h = h
  collect-kept (p ∷ items) (rows, kept) h =
      collect-kept items (take_pair p (rows, kept)) (take_pair-kept p rows kept h)

  key-IsSettled :
      (f : Field) (op : Op) (v : Text)
      → field_named (codes f.name) r.fields ≡ some f
      → supports f.supported_ops op ≡ true
      → IsSettled (filter_key (codes f.name) op, v)
  key-IsSettled f op v found supported = (
    no_panel (codes f.name) op,
    no_page (codes f.name) op,
    (λ k. (f, op, found, supported, refl)),
  )
    where
      no_panel : (name : Text) (op : Op) → is_prefix panel_prefix (filter_key name op) ≡ false
      no_panel name Op.eq = unfold filter_key in refl
      no_panel name op = unfold filter_key in refl

      no_page : (name : Text) (op : Op) → text_eq (filter_key name op) (codes "page") ≡ false
      no_page name Op.eq = unfold filter_key in refl
      no_page name op = unfold filter_key in refl

  abbrev EachSettled : Option (Text × Text) → Type 0
  EachSettled none = Unit
  EachSettled (some p) = IsSettled p

  pair_for-IsSettled :
      (f : Field) (op : Op) (v : Text)
      → field_named (codes f.name) r.fields ≡ some f
      → EachSettled (pair_for f op v)
  pair_for-IsSettled f op v found = elim (Bool-cases (supports f.supported_ops op)) [
    | inr e ↦ rw e tt
    | inl e ↦ elim (Bool-cases (is_unary op)) [
      | inl u ↦ rw e (rw u (key-IsSettled f op [] found e))
      | inr u ↦ elim (Bool-cases (is_empty v)) [
        | inl w ↦ rw e (rw u (rw w tt))
        | inr w ↦ rw e (rw u (rw w (key-IsSettled f op v found e)))
      ]
    ]
  ]

  canonical_pair-IsSettled : (row : PanelRow) → EachSettled (canonical_pair rt r row)
  unfolding canonical_pair
  canonical_pair-IsSettled row =
      let name = strip rt (text_or_empty row.field) in
      elim (Option-cases (field_named name r.fields)) [
        | inl e ↦ rw (e, canonical_pair) tt
        | inr (f, e) ↦ elim (Option-cases (parse_op (strip rt (text_or_empty row.op)))) [
          | inl p ↦ rw (e, canonical_pair) (rw p tt)
          | inr (op, p) ↦
              rw (e, canonical_pair)
                (rw p (
                  pair_for-IsSettled f op (strip rt (text_or_empty row.value))
                    (rw (name-found name r.fields f e) e)))
        ]
      ]

  somes-IsSettled :
      (rows : List ((ℕ × Text) × PanelRow))
      → All IsSettled (somes (map (λ e. canonical_pair rt r e.1) rows))
  somes-IsSettled [] = tt
  somes-IsSettled ((key, row) ∷ rows) =
      join (canonical_pair rt r row) _ (canonical_pair-IsSettled row) (somes-IsSettled rows)
    where
      join :
          (o : Option (Text × Text)) (ps : List (Option (Text × Text)))
          → EachSettled o
          → All IsSettled (somes ps)
          → All IsSettled (somes (o ∷ ps))
      join none ps h k = k
      join (some p) ps h k = (h, k)

  no_panel_params : (out : Pairs) → All IsSettled out → has_panel_params out ≡ false
  unfolding has_panel_params
  no_panel_params [] k = refl
  no_panel_params (p ∷ out) k = rw (k.0.0) (no_panel_params out k.1)

  -- A request of the filter builder is redirected to an address that is settled, if it is
  -- redirected at all: it has no pair of the panel, so it is not redirected again, no page, and no
  -- filter but canonical ones on fields of the resource and operators that they support.
  pub canonical_params-IsSettled :
      (items out : Pairs)
      → canonical_params rt d r items ≡ ok out
      → All IsSettled out × (has_panel_params out ≡ false)
  unfolding canonical_params
  canonical_params-IsSettled items out h =
      elim (Result-cases (keyed d (collect items ([], [])).0)) [
        | inl (numbered, e) ↦
            let settled : All IsSettled out =
              subst (All IsSettled) (ok-inj (rw (e, canonical_params) at h)) (
                All-append _ _ (collect-kept items ([], []) tt)
                  (somes-IsSettled (Order_by.sort order_lt numbered))) in
            (settled, no_panel_params out settled)
        | inr (x, e) ↦ absurd (raise-ne-ok (rw (e, canonical_params) at h))
      ]
    where
      raise-ne-ok : {x : Error} → raise x ≡ ok out → ⊥
      raise-ne-ok k = cc
