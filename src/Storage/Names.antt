-- ===== src/Storage/Names.antt =====
-- safe_filename of app/storage/base.py: a submitted name, reduced to what may stand in a path.
pub mod Safety
use crm_starter.Prelude.{
  ℕ, ◌+◌, Bool, true, false, not, ◌&&◌, ◌||◌, ◌==◌, leb, Option, none, some, List, [], ◌∷◌, ◌++◌,
  all, any, map, take, length, if◌then◌else◌,
}
use crm_starter.Core.Value.{Text, Runtime}
use crm_starter.Core.Placement.{or_default}

abbrev is_upper : ℕ → Bool
is_upper c = leb b'A' c && leb c b'Z'

-- What `_UNSAFE` leaves: letters and digits of ASCII, dots, underscores and dashes.
unfoldable pub is_safe : ℕ → Bool
is_safe c =
    is_upper c
    || ((leb b'a' c && leb c b'z')
        || ((leb b'0' c && leb c b'9') || (c == b'.' || (c == b'_' || c == b'-'))))

-- `_UNSAFE.sub("-", name)`: one dash for a run; the flag says that the run has its dash.
unfoldable pub dashes : Bool → Text → Text
dashes run [] = []
dashes run (c ∷ t) =
    let within = dashes true t in
    let after = dashes false t in
    if is_safe c then c ∷ after else if run then within else b'-' ∷ within

unfoldable pub drop_left : (ℕ → Bool) → Text → Text
drop_left p [] = []
drop_left p (c ∷ t) = let rest = drop_left p t in if p c then rest else c ∷ t

unfoldable pub drop_right : (ℕ → Bool) → Text → Text
drop_right p [] = []
drop_right p (c ∷ t) = elim (drop_right p t) [
  | [] ↦ if p c then [] else c ∷ []
  | d ∷ rest ↦ c ∷ d ∷ rest
]

-- `str.strip`, of the characters of a class.
abbrev pub trim : (ℕ → Bool) → Text → Text
trim p t = drop_right p (drop_left p t)

abbrev pub is_mark : ℕ → Bool
is_mark c = c == b'-' || c == b'.'

-- `posixpath.basename`, with the backslashes taken for slashes.
abbrev pub slash : ℕ → ℕ
slash c = if c == b'\\' then b'/' else c

unfoldable pub basename : Text → Text
basename [] = []
basename (c ∷ t) =
    let rest = basename t in if any (◌==◌ b'/') t then rest else if c == b'/' then t else c ∷ t

-- `name.rpartition(".")`, where there is a dot.
unfoldable pub rpartition : Text → Option (Text × Text)
rpartition [] = none
rpartition (c ∷ t) = elim (rpartition t) [
  | some (stem, extension) ↦ some (c ∷ stem, extension)
  | none ↦ if c == b'.' then some ([], t) else none
]

-- `lower` of a safe character.
unfoldable pub lower : ℕ → ℕ
lower c = if is_upper c then c + 32 else c

-- The name cut to a length.
abbrev pub cut : ℕ → Text → Text → Text
cut n fallback name = or_default (trim is_mark (take n name)) fallback

abbrev pub with_extension : Text → Text → Option (Text × Text) → Text
with_extension fallback name none = cut 90 fallback name
with_extension fallback name (some (stem, extension)) =
    if leb (length extension) 10
    then cut 80 fallback stem ++ b'.' ∷ map lower extension
    else cut 90 fallback name

abbrev pub or_fallback : Text → Text → Text
or_fallback fallback name = if all (◌==◌ b'.') name then fallback else name

-- `ascii` is the normal form of a text, less what is not ASCII.
unfoldable pub safe_filename : Runtime → (Text → Text) → Text → Text → Text
unfolding dashes drop_left drop_right basename rpartition
safe_filename rt ascii fallback filename =
    let base = trim rt.is_space (basename (map slash (ascii filename))) in
    let name = or_fallback fallback (trim is_mark (dashes false base)) in
    with_extension fallback name (rpartition name)
