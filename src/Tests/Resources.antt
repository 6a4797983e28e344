-- ===== src/Tests/Resources.antt =====
-- The policies at concrete inputs.
use crm_starter.Prelude.{◌≡◌, refl, true, false, some, [], ◌∷◌}
use crm_starter.Core.Value.{py_eq}
use crm_starter.Providers.Local.{match, match_tree, match_condition}
use crm_starter.Resources.Policy.{
  Identity, has_role, update, any_authenticated, by_email, owns, OwnerSettings, owner_policy,
}
use crm_starter.Resources.Rbac.{
  Grant, nothing, own, everything, DbPolicy, allows, scope, widest, row_allowed,
}
use crm_starter.Resources.Rbac.Checks.{narrow_only_keeps_base, none_scope_updates, scope_widens}
use crm_starter.Resources.Policy.Owners.{owner_sees_what_it_updates}
use crm_starter.Prelude.Assoc
use crm_starter.Tests.Data.{ascii, row1, rome}

abbrev rep : Identity
rep = record {
  subject = b'7' ∷ [];
  email = rome;
  display_name = [];
  roles = "user" ∷ [];
  is_authenticated = true;
}

abbrev anonymous : Identity
anonymous = record rep { is_authenticated = false; roles = [] }

-- Grants that widen; a row's city stands for its owner.
abbrev policy : DbPolicy
policy = record {
  base = any_authenticated;
  owner_field = "city";
  identity_attr = by_email;
  superuser_roles = "admin" ∷ [];
  narrow_only = false;
}

abbrev narrowing : DbPolicy
narrowing = record policy { narrow_only = true }

abbrev unscoped : Grant
unscoped = record {
  role = "user";
  resource = "*";
  can_read = true;
  can_create = true;
  can_update = true;
  can_delete = false;
  row_scope = nothing;
  hidden_fields = [];
  readonly_fields = [];
}

abbrev own_rows : Grant
own_rows = record unscoped { row_scope = own }

abbrev all_rows : Grant
all_rows = record unscoped { row_scope = everything }

lets_update : allows narrowing true (some (own_rows ∷ [])) update rep (some row1) ≡ true
unfolding allows has_role row_allowed widest owns py_eq Assoc.lookup
lets_update = refl

narrow_only_keeps_base_example : any_authenticated.allows update rep (some row1) ≡ true
narrow_only_keeps_base_example =
    narrow_only_keeps_base narrowing true (some (own_rows ∷ [])) update rep (some row1) refl refl
      lets_update

none_scope_updates_example :
    (match ascii row1 (scope policy true (some (unscoped ∷ [])) rep) ≡ false)
    × (allows policy true (some (unscoped ∷ [])) update rep (some row1) ≡ true)
unfolding has_role Assoc.lookup
none_scope_updates_example =
    none_scope_updates ascii policy unscoped rep row1 refl refl refl refl refl refl refl

sees_own : match ascii row1 (scope policy true (some (own_rows ∷ [])) rep) ≡ true
unfolding scope has_role widest match_tree match_condition Assoc.lookup py_eq
sees_own = refl

scope_widens_example :
    match ascii row1 (scope policy true (some (all_rows ∷ own_rows ∷ [])) rep) ≡ true
unfolding Assoc.lookup
scope_widens_example = scope_widens ascii policy all_rows (own_rows ∷ []) rep row1 refl sees_own

abbrev settings : OwnerSettings
settings = record {
  owner_field = "city";
  identity_attr = by_email;
  bypass_roles = "manager" ∷ [];
  read_all = false;
}

may_update : (owner_policy settings).allows update rep (some row1) ≡ true
unfolding has_role owns Assoc.lookup py_eq
may_update = refl

owner_sees_what_it_updates_example : match ascii row1 ((owner_policy settings).scope rep) ≡ true
owner_sees_what_it_updates_example = owner_sees_what_it_updates ascii settings rep row1 may_update
