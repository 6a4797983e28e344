-- ===== src/Resources/Rbac.antt =====
-- app/resources/rbac.py: grants, and the policy that is backed by the table of grants. The grants that
-- were loaded for the request are an argument, `none` where none were loaded. Loading and caching the
-- table, and the lists of readable and writable fields, are left out.
pub mod Checks
use crm_starter.Prelude.{
  ℕ, Bool, true, false, not, ◌&&◌, ◌||◌, String, Option, none, some, List, [], ◌∷◌, ◌++◌, any, all,
  keep, str_eq, ltb, if◌then◌else◌, map,
}
use crm_starter.Prelude.Assoc
use crm_starter.Core.Value.{Text, Row}
use crm_starter.Core.Query.{Filter, and_}
use crm_starter.Resources.Policy.{
  Identity, has_role, holds, Operation, read, create, update, delete, is_read, deny_all, Policy,
  IdentityAttr, attribute, owns, owned_by,
}

pub data RowScope : Type 0 where
  nothing own everything : RowScope

abbrev pub scope_rank : RowScope → ℕ
scope_rank nothing = 0
scope_rank own = 1
scope_rank everything = 2

pub record Grant : Type 0 where
  pub role : String
  pub resource : String
  pub can_read : Bool
  pub can_create : Bool
  pub can_update : Bool
  pub can_delete : Bool
  pub row_scope : RowScope
  pub hidden_fields : List String
  pub readonly_fields : List String

-- `Grant.allows`
abbrev pub grant_allows : Operation → Grant → Bool
grant_allows read g = g.can_read
grant_allows create g = g.can_create
grant_allows update g = g.can_update
grant_allows delete g = g.can_delete

-- `GrantTable.by_role`
abbrev pub GrantTable : Type 0
GrantTable = List (String × List Grant)

abbrev pub grants_of : GrantTable → String → List Grant
grants_of table role = elim (Assoc.lookup role table) [ none ↦ [] | some grants ↦ grants ]

-- The grants of each of the caller's roles, for the resource or for "*".
unfoldable pub for_roles : GrantTable → List String → String → List Grant
for_roles table [] resource_name = []
for_roles table (role ∷ roles) resource_name =
    keep (λ g. str_eq g.resource resource_name || str_eq g.resource "*") (grants_of table role)
    ++ for_roles table roles resource_name

pub record DbPolicy : Type 0 where
  pub base : Policy
  pub owner_field : String
  pub identity_attr : IdentityAttr
  pub superuser_roles : List String
  pub narrow_only : Bool

-- `max(scopes, key=_scope_rank)`; of no scopes there is none.
unfoldable pub widest : List RowScope → RowScope
widest [] = nothing
widest (s ∷ scopes) = let w = widest scopes in if ltb (scope_rank s) (scope_rank w) then w else s

abbrev pub is_own : RowScope → Bool
is_own own = true
is_own _ = false

abbrev pub scopes_of : Operation → List Grant → List RowScope
scopes_of op grants = map (λ g. g.row_scope) (keep (grant_allows op) grants)

-- An update or a delete of a row checks the owner if the widest scope is "own".
unfoldable pub row_allowed : DbPolicy → List Grant → Operation → Identity → Option Row → Bool
row_allowed p grants op identity none = true
row_allowed p grants read identity (some row) = true
row_allowed p grants create identity (some row) = true
row_allowed p grants op identity (some row) =
    not (is_own (widest (scopes_of op grants)))
    || owns p.owner_field (attribute p.identity_attr identity) row

-- `allows`, where `loaded` are the grants of this request and `configured` says that there is a table.
unfoldable pub allows :
    DbPolicy → Bool → Option (List Grant) → Operation → Identity → Option Row → Bool
allows p configured loaded op identity row =
    let base = p.base.allows op identity row in
    let narrowed = if not (is_read op) && p.narrow_only then base else true in
    if not identity.is_authenticated
    then false
    else if has_role identity p.superuser_roles
    then narrowed
    else elim loaded [
      | none ↦ base
      | some grants ↦
          if not configured
          then base
          else (any (grant_allows op) grants && row_allowed p grants op identity row) && narrowed
    ]

-- What the widest readable scope comes to.
abbrev pub scope_filter : DbPolicy → Option Filter → Identity → RowScope → Option Filter
scope_filter p structural identity nothing = some deny_all
scope_filter p structural identity everything = structural
scope_filter p structural identity own =
    let owned = owned_by p.owner_field (attribute p.identity_attr identity) in
    if p.narrow_only then and_ (structural ∷ some owned ∷ []) else some owned

unfoldable pub scope : DbPolicy → Bool → Option (List Grant) → Identity → Option Filter
scope p configured loaded identity =
    let structural = if p.narrow_only then p.base.scope identity else none in
    if not identity.is_authenticated
    then some deny_all
    else if has_role identity p.superuser_roles
    then structural
    else elim loaded [
      | none ↦ p.base.scope identity
      | some grants ↦
          if not configured
          then p.base.scope identity
          else scope_filter p structural identity (widest (scopes_of read grants))
    ]

-- The fields that every grant of a list hides; of no grants, none.
unfoldable pub in_all : (Grant → List String) → List Grant → List String
in_all fields [] = []
in_all fields (g ∷ []) = fields g
in_all fields (g ∷ h ∷ grants) = keep (holds (in_all fields (h ∷ grants))) (fields g)

-- `_hidden` and `_readonly`
unfoldable pub hidden : DbPolicy → Option (List Grant) → Identity → List String
hidden p loaded identity =
    if has_role identity p.superuser_roles
    then []
    else elim loaded [ none ↦ [] | some grants ↦ in_all (λ g. g.hidden_fields) grants ]

unfoldable pub readonly : DbPolicy → Option (List Grant) → Identity → List String
readonly p loaded identity =
    if has_role identity p.superuser_roles
    then []
    else elim loaded [ none ↦ [] | some grants ↦ in_all (λ g. g.readonly_fields) grants ]
