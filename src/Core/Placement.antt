-- ===== src/Core/Placement.antt =====
-- app/core/placement.py: which connection holds which table. A resource is its name and its references;
-- the registry's connections are given as the type of each, where they are known.
pub mod Places
use crm_starter.Prelude.{
  Bool, true, false, not, ◌&&◌, ◌||◌, Option, none, some, List, [], ◌∷◌, ◌++◌, any, keep, map, ltb,
  length, if◌then◌else◌, ◌==◌, ℕ,
}
use crm_starter.Prelude.Sort as Order_by
use crm_starter.Core.Value.{Text, Runtime, text_eq, text_lt}

abbrev pub includes : List Text → Text → Bool
includes ts t = any (text_eq t) ts

-- `ref.partition("#")`: what is before the first one, and what is after it.
unfoldable pub partition_hash : Text → Text × Text
partition_hash [] = ([], [])
partition_hash (c ∷ t) =
    let rest = partition_hash t in if c == b'#' then ([], t) else (c ∷ rest.0, rest.1)

unfoldable pub lstrip : Runtime → Text → Text
lstrip rt [] = []
lstrip rt (c ∷ t) = let rest = lstrip rt t in if rt.is_space c then rest else c ∷ t

unfoldable pub rstrip : Runtime → Text → Text
rstrip rt [] = []
rstrip rt (c ∷ t) = elim (rstrip rt t) [
  | [] ↦ if rt.is_space c then [] else c ∷ []
  | d ∷ rest ↦ c ∷ d ∷ rest
]

abbrev pub strip : Runtime → Text → Text
strip rt t = rstrip rt (lstrip rt t)

abbrev pub or_default : Text → Text → Text
or_default [] default = default
or_default (c ∷ t) default = c ∷ t

unfoldable pub parse_ref : Runtime → Text → Text → Text × Text
parse_ref rt ref default_target =
    let (connection, target) = partition_hash ref in
    (strip rt connection, or_default (strip rt target) default_target)

-- What a resource names as its provider: a union's sources, one reference, or an object.
pub data ProviderRef : Type 0 where
  union_of : List Text → ProviderRef
  at : Text → ProviderRef
  object : ProviderRef

pub record Resource : Type 0 where
  pub name : Text
  pub provider_ref : ProviderRef
  pub write_provider : Option Text

abbrev pub read_refs : Runtime → Resource → List (Text × Text)
read_refs rt r = elim r.provider_ref [
  | union_of refs ↦ map (λ ref. parse_ref rt ref r.name) refs
  | at ref ↦ parse_ref rt ref r.name ∷ []
  | object ↦ []
]

abbrev pub write_refs : Runtime → Resource → List (Text × Text)
write_refs rt r = elim r.write_provider [
  | none ↦ []
  | some [] ↦ []
  | some (c ∷ ref) ↦ parse_ref rt (c ∷ ref) r.name ∷ []
]

unfoldable pub refs : Runtime → Resource → List (Text × Text)
refs rt r = read_refs rt r ++ write_refs rt r

pub record Placement : Type 0 where
  pub claimed : List (Text × Text)
  pub default : Text
  pub elsewhere : List Text

unfoldable pub claimed_by : Text → List (Text × Text) → Option Text
claimed_by table [] = none
claimed_by table ((name, connection) ∷ claims) =
    let later = claimed_by table claims in if text_eq name table then some connection else later

unfoldable pub claim : Text → Text → List (Text × Text) → List (Text × Text)
claim table new [] = (table, new) ∷ []
claim table new ((name, connection) ∷ claims) =
    let later = claim table new claims in
    if text_eq name table then (table, new) ∷ claims else (name, connection) ∷ later

unfoldable pub connection_for : Placement → Text → Text
connection_for p table = elim (claimed_by table p.claimed) [ none ↦ p.default | some c ↦ c ]

abbrev pub is_elsewhere : Placement → Text → Bool
is_elsewhere p table = includes p.elsewhere table

unfoldable pub tables_on : Placement → Text → List Text → List Text
tables_on p connection known =
    keep (λ t. not (is_elsewhere p t) && text_eq (connection_for p t) connection) known

-- The texts of a list, each once.
unfoldable pub once : List Text → List Text
once [] = []
once (t ∷ ts) = let rest = once ts in if includes rest t then rest else t ∷ rest

-- The default connection, and then the others by name.
unfoldable pub connections : Placement → List Text
connections p =
    p.default
    ∷ Order_by.sort text_lt
        (keep (λ c. not (text_eq c p.default)) (once (map (λ e. e.1) p.claimed)))

abbrev pub is_split : Placement → Bool
is_split p = ltb 1 (length (connections p))

abbrev pub needs_narrowing : Placement → Bool
needs_narrowing p = is_split p || not (length p.elsewhere == 0)

-- A connection that is known to hold no tables.
abbrev pub holds_no_tables : (Text → Option Bool) → Text → Bool
holds_no_tables tabular connection = elim (tabular connection) [
  | none ↦ false
  | some holds ↦ not holds
]

-- One reference, after what was claimed and what is elsewhere so far.
abbrev pub place :
    (Text → Option Bool)
    → Text × Text
    → List (Text × Text) × List Text
    → List (Text × Text) × List Text
place tabular ([], target) so_far = so_far
place tabular (c ∷ connection, []) so_far = so_far
place tabular (c ∷ connection, d ∷ target) so_far =
    if holds_no_tables tabular (c ∷ connection)
    then (so_far.0, (d ∷ target) ∷ so_far.1)
    else (claim (d ∷ target) (c ∷ connection) so_far.0, so_far.1)

unfoldable pub place_all :
    (Text → Option Bool)
    → List (Text × Text)
    → List (Text × Text) × List Text
    → List (Text × Text) × List Text
place_all tabular [] so_far = so_far
place_all tabular (ref ∷ refs) so_far = place_all tabular refs (place tabular ref so_far)

unfoldable pub all_refs : Runtime → List Resource → List (Text × Text)
all_refs rt [] = []
all_refs rt (r ∷ resources) = refs rt r ++ all_refs rt resources

-- `placement`: what is claimed is not elsewhere.
unfoldable pub placement : Runtime → (Text → Option Bool) → Text → List Resource → Placement
placement rt tabular default resources =
    let (claimed, elsewhere) = place_all tabular (all_refs rt resources) ([], []) in
    record {
      claimed = claimed;
      default = default;
      elsewhere = keep (λ t. not (includes (map (λ e. e.0) claimed) t)) elsewhere;
    }
