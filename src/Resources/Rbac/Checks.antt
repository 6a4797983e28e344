-- ===== src/Resources/Rbac/Checks.antt =====
-- What the checks of the database policy guarantee, and where they differ from its row scopes.
use crm_starter.Prelude.{
  and-eq-true, ◌≤◌, ◌≡◌, ◌∙◌, refl, sym, ap, Bool, true, false, Option, none, some, List, [], ◌∷◌,
  arith, inl, inr, Bool-cases, if◌then◌else◌,
}
use crm_starter.Core.Value.{Runtime, Row, get}
use crm_starter.Core.Query.{Filter, Condition, and_}
use crm_starter.Providers.Local.{match, match_tree, match_condition, match_missing}
use crm_starter.Providers.Local.Semantics.{match-and_}
use crm_starter.Resources.Policy.{
  Identity, has_role, Operation, read, update, is_read, deny_all, owned_by, attribute,
}
use crm_starter.Resources.Rbac.{
  RowScope, nothing, own, everything, scope_rank, Grant, DbPolicy, widest, scopes_of, row_allowed,
  allows, scope_filter, scope,
}

match_condition-missing :
    (rt : Runtime) (row : Row) (c : Condition)
    → get row c.field ≡ none
    → match_condition rt row c ≡ match_missing c.op
unfolding match_condition
match_condition-missing rt row c h = simp (h, match_condition) refl

match-deny_all :
    (rt : Runtime) (row : Row) → get row "1" ≡ none → match rt row (some deny_all) ≡ false
unfolding match_tree
match-deny_all rt row h = match_condition-missing rt row _ h

-- A caller who is not signed in is allowed nothing, and no row is in the caller's scope, on rows that
-- have no column "1".
pub anonymous_denied :
    (rt : Runtime) (p : DbPolicy) (configured : Bool) (loaded : Option (List Grant))
    (op : Operation) (identity : Identity) (target : Option Row) (row : Row)
    → identity.is_authenticated ≡ false
    → get row "1" ≡ none
    → (allows p configured loaded op identity target ≡ false)
      × (match rt row (scope p configured loaded identity) ≡ false)
unfolding allows scope
anonymous_denied rt p configured loaded op identity target row out absent =
    (simp (out, allows) refl, simp (out, scope) (match-deny_all rt row absent))

-- Whatever is granted, and whoever asks, a policy that only narrows allows no write that the
-- structural policy refuses.
pub narrow_only_keeps_base :
    (p : DbPolicy) (configured : Bool) (loaded : Option (List Grant)) (op : Operation)
    (identity : Identity) (target : Option Row)
    → p.narrow_only ≡ true
    → is_read op ≡ false
    → allows p configured loaded op identity target ≡ true
    → p.base.allows op identity target ≡ true
unfolding allows
narrow_only_keeps_base p configured loaded op identity target narrow write h =
    ground (arith, narrow, write, h)

-- Under a policy that does not only narrow its base, a signed-in identity that is no superuser, and
-- whose one grant lets it read and update with the row scope "none", may update a row that is named
-- directly although the row is not in the scope of its reads. The row has no column "1".
pub none_scope_updates :
    (rt : Runtime) (p : DbPolicy) (g : Grant) (identity : Identity) (row : Row)
    → p.narrow_only ≡ false
    → identity.is_authenticated ≡ true
    → has_role identity p.superuser_roles ≡ false
    → g.can_read ≡ true
    → g.can_update ≡ true
    → g.row_scope ≡ nothing
    → get row "1" ≡ none
    → (match rt row (scope p true (some (g ∷ [])) identity) ≡ false)
      × (allows p true (some (g ∷ [])) update identity (some row) ≡ true)
unfolding allows scope widest row_allowed
none_scope_updates rt p g identity row wide signed plain reads updates none_scope absent =
    let denied : scope p true (some (g ∷ [])) identity ≡ some deny_all =
      ground (arith, wide, signed, plain, reads, none_scope) in
    (
      ap (match rt row) denied ∙ match-deny_all rt row absent,
      ground (arith, wide, signed, plain, updates, none_scope),
    )

scope_rank-widest :
    (s : RowScope) (scopes : List RowScope)
    → (scope_rank s ≤ scope_rank (widest (s ∷ scopes)))
      × (scope_rank (widest scopes) ≤ scope_rank (widest (s ∷ scopes)))
unfolding widest
scope_rank-widest s scopes = ground arith

widest-scopes_of :
    (g : Grant) (grants : List Grant)
    → scope_rank (widest (scopes_of read grants))
      ≤ scope_rank (widest (scopes_of read (g ∷ grants)))
widest-scopes_of g grants = elim (Bool-cases g.can_read) [
  | inl on ↦ rw on (scope_rank-widest g.row_scope (scopes_of read grants)).1
  | inr off ↦ rw off (omega arith)
]

scope_filter-narrow :
    (p : DbPolicy) (structural : Option Filter) (identity : Identity)
    → p.narrow_only ≡ true
    → scope_filter p structural identity own
      ≡ and_ (structural ∷ some (owned_by p.owner_field (attribute p.identity_attr identity)) ∷ [])
scope_filter-narrow p structural identity narrow = simp narrow refl

abbrev structural_of : DbPolicy → Identity → Option Filter
structural_of p identity = if p.narrow_only then p.base.scope identity else none

structural_of-wide :
    (p : DbPolicy) (identity : Identity) → p.narrow_only ≡ false → structural_of p identity ≡ none
structural_of-wide p identity wide = simp wide refl

scope-signed :
    (p : DbPolicy) (grants : List Grant) (identity : Identity)
    → identity.is_authenticated ≡ true
    → has_role identity p.superuser_roles ≡ false
    → scope p true (some grants) identity
      ≡ scope_filter p (structural_of p identity) identity (widest (scopes_of read grants))
unfolding scope
scope-signed p grants identity signed plain = simp (signed, plain, scope) refl

scope-out :
    (p : DbPolicy) (grants : List Grant) (identity : Identity)
    → identity.is_authenticated ≡ false
    → scope p true (some grants) identity ≡ some deny_all
unfolding scope
scope-out p grants identity out = simp (out, scope) refl

scope-super :
    (p : DbPolicy) (grants : List Grant) (identity : Identity)
    → identity.is_authenticated ≡ true
    → has_role identity p.superuser_roles ≡ true
    → scope p true (some grants) identity ≡ structural_of p identity
unfolding scope
scope-super p grants identity signed super = simp (signed, super, scope) refl

-- The filter of a wider row scope lets through each row that the filter of a narrower one does.
scope_filter-widens :
    (a b : RowScope) (rt : Runtime) (p : DbPolicy) (structural : Option Filter)
    (identity : Identity) (row : Row)
    → (p.narrow_only ≡ false → structural ≡ none)
    → get row "1" ≡ none
    → scope_rank a ≤ scope_rank b
    → match rt row (scope_filter p structural identity a) ≡ true
    → match rt row (scope_filter p structural identity b) ≡ true
scope_filter-widens nothing b rt p structural identity row free absent l h =
    let denied = match-deny_all rt row absent in cc
scope_filter-widens own nothing rt p structural identity row free absent l h =
    absurd (omega (arith, l))
scope_filter-widens everything nothing rt p structural identity row free absent l h =
    absurd (omega (arith, l))
scope_filter-widens everything own rt p structural identity row free absent l h =
    absurd (omega (arith, l))
scope_filter-widens everything everything rt p structural identity row free absent l h = h
scope_filter-widens own own rt p structural identity row free absent l h = h
scope_filter-widens own everything rt p structural identity row free absent l h =
    elim (Bool-cases p.narrow_only) [
      | inl narrow ↦
          let owned = owned_by p.owner_field (attribute p.identity_attr identity) in
          let both : match rt row (and_ (structural ∷ some owned ∷ [])) ≡ true =
            ap (match rt row) (sym (scope_filter-narrow p structural identity narrow)) ∙ h in
          (and-eq-true _ _ (sym (match-and_ rt row (structural ∷ some owned ∷ [])) ∙ both)).0
      | inr wide ↦ ap (match rt row) (free wide)
    ]

-- A further grant takes no row out of the scope of a caller who has grants: each row, without a column
-- "1", that matches the scope before matches it after.
pub scope_widens :
    (rt : Runtime) (p : DbPolicy) (g : Grant) (grants : List Grant) (identity : Identity)
    (row : Row)
    → get row "1" ≡ none
    → match rt row (scope p true (some grants) identity) ≡ true
    → match rt row (scope p true (some (g ∷ grants)) identity) ≡ true
scope_widens rt p g grants identity row absent h = elim (Bool-cases identity.is_authenticated) [
  | inr out ↦
      ap (match rt row)
        (scope-out p (g ∷ grants) identity out ∙ sym (scope-out p grants identity out))
      ∙ h
  | inl signed ↦ elim (Bool-cases (has_role identity p.superuser_roles)) [
    | inl super ↦
        ap (match rt row) (
          scope-super p (g ∷ grants) identity signed super
          ∙ sym (scope-super p grants identity signed super))
        ∙ h
    | inr plain ↦
        ap (match rt row) (scope-signed p (g ∷ grants) identity signed plain)
        ∙ scope_filter-widens (widest (scopes_of read grants))
            (widest (scopes_of read (g ∷ grants))) rt p (structural_of p identity) identity row
            (structural_of-wide p identity) absent (widest-scopes_of g grants)
            (sym (ap (match rt row) (scope-signed p grants identity signed plain)) ∙ h)
  ]
]
