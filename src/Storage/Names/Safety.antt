-- ===== src/Storage/Names/Safety.antt =====
-- What safe_filename of app/storage/base.py leaves of a name.
use crm_starter.Prelude.{
  ℕ, ◌≡◌, refl, Bool, true, false, not, Option, none, some, [], ◌∷◌, ◌++◌, All, all, map, take,
  Bool-cases, inl, inr, ap, arith, All-if, All-take, leb, length, if◌then◌else◌, ◌==◌, ◌⊎◌,
}
use crm_starter.Core.Value.{Text, Runtime}
use crm_starter.Core.Placement.{or_default}
use crm_starter.Storage.Names.{
  is_safe, dashes, drop_left, drop_right, trim, is_mark, basename, slash, rpartition, lower, cut,
  with_extension, or_fallback, safe_filename,
}

abbrev pub Safe : ℕ → Type 0
Safe c = is_safe c ≡ true

-- It begins, and with neither a dash nor a dot.
abbrev pub begins : Text → Bool
begins [] = false
begins (c ∷ t) = not (is_mark c)

dash-Safe : Safe b'-'
unfolding is_safe
dash-Safe = refl

dot-Safe : Safe b'.'
unfolding is_safe
dot-Safe = refl

dashes-All : (run : Bool) (t : Text) → All Safe (dashes run t)
unfolding dashes
dashes-All run [] = tt
dashes-All run (c ∷ t) = elim (Bool-cases (is_safe c)) [
  | inl e ↦ rw e (e, dashes-All false t)
  | inr e ↦ elim (Bool-cases run) [
    | inl r ↦ rw (e, r) (dashes-All true t)
    | inr r ↦ rw (e, r) (dash-Safe, dashes-All true t)
  ]
]

module _ (P : ℕ → Type 0) (p : ℕ → Bool) where
  drop_left-All : (t : Text) → All P t → All P (drop_left p t)
  unfolding drop_left
  drop_left-All [] h = tt
  drop_left-All (c ∷ t) h = elim (Bool-cases (p c)) [
    | inl e ↦ rw e (drop_left-All t h.1)
    | inr e ↦ rw e h
  ]

  drop_right-All : (t : Text) → All P t → All P (drop_right p t)
  unfolding drop_right
  drop_right-All [] h = tt
  drop_right-All (c ∷ t) h = of_rest (drop_right p t) (drop_right-All t h.1)
    where
      of_rest :
          (rest : Text)
          → All P rest
          → All P (elim rest [ [] ↦ if p c then [] else c ∷ [] | d ∷ more ↦ c ∷ d ∷ more ])
      of_rest [] k = elim (Bool-cases (p c)) [ inl e ↦ rw e tt | inr e ↦ rw e (h.0, tt) ]
      of_rest (d ∷ more) k = (h.0, k)

  trim-All : (t : Text) → All P t → All P (trim p t)
  trim-All t h = drop_right-All (drop_left p t) (drop_left-All t h)

lower-Safe : (c : ℕ) → Safe c → Safe (lower c)
unfolding lower is_safe
lower-Safe c h = ground arith

Parts : (ℕ → Type 0) → Option (Text × Text) → Type 0
Parts P none = Unit
Parts P (some (stem, extension)) = All P stem × All P extension

rpartition-All : (P : ℕ → Type 0) (t : Text) → All P t → Parts P (rpartition t)
unfolding rpartition Parts
rpartition-All P [] h = tt
rpartition-All P (c ∷ t) h = of_rest (rpartition t) (rpartition-All P t h.1)
  where
    of_rest :
        (r : Option (Text × Text))
        → Parts P r
        → Parts P (elim r [
          | some (stem, extension) ↦ some (c ∷ stem, extension)
          | none ↦ if c == b'.' then some ([], t) else none
        ])
    of_rest (some (stem, extension)) k = ((h.0, k.0), k.1)
    of_rest none k = elim (Bool-cases (c == b'.')) [ inl e ↦ rw e (tt, h.1) | inr e ↦ rw e tt ]

-- Good to stand in a path: safe characters, of which the first is neither a dash nor a dot.
abbrev pub Good : Text → Type 0
Good t = All Safe t × (begins t ≡ true)

drop_left-begins : (t : Text) → (drop_left is_mark t ≡ []) ⊎ (begins (drop_left is_mark t) ≡ true)
unfolding drop_left
drop_left-begins [] = inl refl
drop_left-begins (c ∷ t) = elim (Bool-cases (is_mark c)) [
  | inl e ↦ rw e (drop_left-begins t)
  | inr e ↦ rw e (inr (ap not e))
]

drop_right-begins : (t : Text) → begins t ≡ true → begins (drop_right is_mark t) ≡ true
unfolding drop_right
drop_right-begins [] h = h
drop_right-begins (c ∷ t) h = of_rest (drop_right is_mark t)
  where
    of_rest :
        (rest : Text)
        → begins (elim rest [ [] ↦ if is_mark c then [] else c ∷ [] | d ∷ more ↦ c ∷ d ∷ more ])
          ≡ true
    of_rest [] = elim (Bool-cases (is_mark c)) [ inl e ↦ cc | inr e ↦ rw e h ]
    of_rest (d ∷ more) = h

or_default_begun : (t fallback : Text) → All Safe t → begins t ≡ true → Good (or_default t fallback)
or_default_begun [] fallback h k = cc
or_default_begun (c ∷ t) fallback h k = (h, k)

or_default-Good :
    (t fallback : Text) → All Safe t → Good fallback → Good (or_default (trim is_mark t) fallback)
unfolding drop_right
or_default-Good t fallback h k = elim (drop_left-begins t) [
  | inl e ↦ rw e k
  | inr e ↦
      or_default_begun (trim is_mark t) fallback (trim-All Safe is_mark t h)
        (drop_right-begins (drop_left is_mark t) e)
]

cut-Good :
    (n : ℕ) (fallback name : Text) → All Safe name → Good fallback → Good (cut n fallback name)
cut-Good n fallback name h k = or_default-Good (take n name) fallback (All-take Safe n name h) k

map_lower-All : (t : Text) → All Safe t → All Safe (map lower t)
map_lower-All [] h = tt
map_lower-All (c ∷ t) h = (lower-Safe c h.0, map_lower-All t h.1)

append-All : (P : ℕ → Type 0) (s t : Text) → All P s → All P t → All P (s ++ t)
append-All P [] t h k = k
append-All P (c ∷ s) t h k = (h.0, append-All P s t h.1 k)

append-Good : (s t : Text) → Good s → All Safe t → Good (s ++ t)
append-Good [] t h k = cc
append-Good (c ∷ s) t h k = (append-All Safe (c ∷ s) t h.0 k, h.1)

with_extension-Good :
    (fallback name : Text) (parts : Option (Text × Text))
    → Good fallback
    → All Safe name
    → Parts Safe parts
    → Good (with_extension fallback name parts)
unfolding Parts
with_extension-Good fallback name none k h p = cut-Good 90 fallback name h k
with_extension-Good fallback name (some (stem, extension)) k h p =
    elim (Bool-cases (leb (length extension) 10)) [
      | inl e ↦ rw e (
          append-Good (cut 80 fallback stem) (b'.' ∷ map lower extension)
            (cut-Good 80 fallback stem p.0 k) (dot-Safe, map_lower-All extension p.1))
      | inr e ↦ rw e (cut-Good 90 fallback name h k)
    ]

or_fallback-All :
    (fallback name : Text)
    → All Safe fallback
    → All Safe name
    → All Safe (or_fallback fallback name)
or_fallback-All fallback name h k = All-if Safe (all (◌==◌ b'.') name) fallback name h k

-- Whatever name is submitted, the name that it is stored under holds only letters and digits of
-- ASCII, dots, underscores and dashes, so no separator of a path; it is not empty, and does not begin
-- with a dot, so it is no parent or hidden directory. The same holds of the fallback.
pub safe_filename-Good :
    (rt : Runtime) (ascii : Text → Text) (fallback filename : Text)
    → Good fallback
    → Good (safe_filename rt ascii fallback filename)
unfolding safe_filename
safe_filename-Good rt ascii fallback filename k =
    let base = trim rt.is_space (basename (map slash (ascii filename))) in
    let name = or_fallback fallback (trim is_mark (dashes false base)) in
    let safe =
      or_fallback-All fallback (trim is_mark (dashes false base)) k.0
        (trim-All Safe is_mark (dashes false base) (dashes-All false base)) in
    with_extension-Good fallback name (rpartition name) k safe (rpartition-All Safe name safe)
