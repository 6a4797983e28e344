-- ===== src/Resources/Policy.antt =====
-- app/resources/policy.py: the policies that code declares. A filter is the row restriction of a
-- caller; the fields that a caller may see are left out.
pub mod Owners
use crm_starter.Prelude.{
  ℕ, ◌≡◌, Bool, true, false, not, ◌&&◌, ◌||◌, String, Option, none, some, List, [], ◌∷◌, any,
  str_eq, if◌then◌else◌,
}
use crm_starter.Core.Value.{Text, Value, Row, null, text, py_eq, get}
use crm_starter.Core.Query.{Op, scalar, Condition, Filter, cond}

-- The part of `Identity` that policies and stamps read.
pub record Identity : Type 0 where
  pub subject : Text
  pub email : Text
  pub display_name : Text
  pub roles : List String
  pub is_authenticated : Bool

abbrev pub holds : List String → String → Bool
holds roles role = any (str_eq role) roles

-- `admin` satisfies every requirement.
unfoldable pub has_role : Identity → List String → Bool
has_role identity roles = holds identity.roles "admin" || any (holds identity.roles) roles

pub data Operation : Type 0 where
  read create update delete : Operation

abbrev pub is_read : Operation → Bool
is_read read = true
is_read _ = false

abbrev pub is_create : Operation → Bool
is_create create = true
is_create _ = false

-- A filter on a column "1", which no row has.
abbrev pub deny_all : Filter
deny_all = cond (record {
  field = "1";
  op = Op.eq;
  value = scalar (text (0 ∷ b'_' ∷ b'_' ∷ b'd' ∷ b'e' ∷ b'n' ∷ b'y' ∷ b'_' ∷ b'_' ∷ []));
})

-- What a policy answers; a record is the row at hand of a check on one row.
pub record Policy : Type 0 where
  pub allows : Operation → Identity → Option Row → Bool
  pub scope : Identity → Option Filter

abbrev pub any_authenticated : Policy
any_authenticated = record {
  allows = λ op identity row. identity.is_authenticated;
  scope = λ identity. none;
}

abbrev pub public_policy : Policy
public_policy = record {
  allows = λ op identity row. if is_read op then true else identity.is_authenticated;
  scope = λ identity. none;
}

abbrev pub read_only_policy : Policy
read_only_policy = record {
  allows = λ op identity row. is_read op && identity.is_authenticated;
  scope = λ identity. none;
}

-- The roles that each operation requires, with `write` standing for the three that change rows.
pub record Requirements : Type 0 where
  pub for_read : List String
  pub for_create : List String
  pub for_update : List String
  pub for_delete : List String
  pub for_write : List String

abbrev pub or_write : List String → List String → List String
or_write [] write = write
or_write (role ∷ roles) write = role ∷ roles

abbrev pub required : Requirements → Operation → List String
required r read = r.for_read
required r create = or_write r.for_create r.for_write
required r update = or_write r.for_update r.for_write
required r delete = or_write r.for_delete r.for_write

abbrev pub role_policy : Requirements → Policy
role_policy r = record {
  allows = λ op identity row.
      identity.is_authenticated
      && elim (required r op) [ [] ↦ true | role ∷ roles ↦ has_role identity (role ∷ roles) ];
  scope = λ identity. none;
}

pub data IdentityAttr : Type 0 where
  by_subject by_email : IdentityAttr

abbrev pub attribute : IdentityAttr → Identity → Text
attribute by_subject identity = identity.subject
attribute by_email identity = identity.email

-- `record.get(owner_field) == value`.
unfoldable pub owns : String → Text → Row → Bool
owns owner_field value row =
    py_eq (elim (get row owner_field) [ none ↦ null | some v ↦ v ]) (text value)

abbrev pub owned_by : String → Text → Filter
owned_by owner_field value =
    cond (record { field = owner_field; op = Op.eq; value = scalar (text value) })

pub record OwnerSettings : Type 0 where
  pub owner_field : String
  pub identity_attr : IdentityAttr
  pub bypass_roles : List String
  pub read_all : Bool

abbrev pub owner_policy : OwnerSettings → Policy
owner_policy s = record {
  allows = λ op identity row.
      identity.is_authenticated
      && ((is_create op || has_role identity s.bypass_roles) || elim row [
        | none ↦ true
        | some r ↦ owns s.owner_field (attribute s.identity_attr identity) r
      ]);
  scope = λ identity.
      if not identity.is_authenticated
      then some deny_all
      else if s.read_all || has_role identity s.bypass_roles
      then none
      else some (owned_by s.owner_field (attribute s.identity_attr identity));
}
