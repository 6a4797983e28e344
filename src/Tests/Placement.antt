-- ===== src/Tests/Placement.antt =====
-- Where the tables of four resources are.
use crm_starter.Prelude.{◌≡◌, refl, Bool, not, Option, none, some, List, [], ◌∷◌}
use crm_starter.Core.Value.{Text, text_eq}
use crm_starter.Core.Placement.{
  Placement, Resource, at, union_of, object, placement, place_all, all_refs, refs, parse_ref,
  rstrip, lstrip, partition_hash, claim,
}
use crm_starter.Tests.Data.{ascii}

abbrev main : Text
main = b'm' ∷ []

abbrev old : Text
old = b'o' ∷ []

abbrev redis : Text
redis = b'r' ∷ []

abbrev deals : Text
deals = b'd' ∷ []

abbrev carts : Text
carts = b'c' ∷ []

-- "o#d", "r#c", and a union of "m#d2" and " o ", which stands for the resource's own name.
abbrev resources : List Resource
resources =
    record { name = b'x' ∷ []; provider_ref = at (b'o' ∷ b'#' ∷ deals); write_provider = none }
    ∷ record { name = b'y' ∷ []; provider_ref = at (b'r' ∷ b'#' ∷ carts); write_provider = none }
    ∷ record {
      name = b'z' ∷ [];
      provider_ref = union_of ((b'm' ∷ b'#' ∷ b'd' ∷ b'2' ∷ []) ∷ (32 ∷ b'o' ∷ 32 ∷ []) ∷ []);
      write_provider = some [];
    }
    ∷ record { name = b'w' ∷ []; provider_ref = object; write_provider = none }
    ∷ []

abbrev places : Placement
places = record {
  claimed = (deals, old) ∷ (b'z' ∷ [], old) ∷ [];
  default = main;
  elsewhere = carts ∷ [];
}

-- The declarations give that placement, and "d2" to the default.
abbrev stores : Text → Option Bool
stores c = some (not (text_eq c redis))

declared :
    placement ascii stores main resources
    ≡ record places { claimed = (deals, old) ∷ (b'd' ∷ b'2' ∷ [], main) ∷ (b'z' ∷ [], old) ∷ [] }
unfolding placement place_all all_refs refs parse_ref rstrip lstrip partition_hash claim
declared = refl
