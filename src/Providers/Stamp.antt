-- ===== src/Providers/Stamp.antt =====
-- app/providers/stamp.py: columns that say who created a record, filled on the way to a create.
use crm_starter.Prelude.{
  ◌≡◌, ◌∙◌, refl, sym, ap, Bool, true, false, String, some, List, [], ◌∷◌, if◌then◌else◌, str_eq,
  Bool-cases, inl, inr,
}
use package.text.Mathlib.TextEquality.{eq_iff}
use crm_starter.Prelude.Assoc
use crm_starter.Prelude.Assoc.{lookup-insert}
use crm_starter.Core.Value.{Text, text, Row, get}
use crm_starter.Core.Results.{value_error, Result, ok, raise, ok-inj, ok_bind, ◌>>=◌, WriteResult}
use crm_starter.Resources.Policy.{Identity}
use crm_starter.Providers.Sequence.{Writer, truthy}

-- Python's `a or b`.
abbrev pub or_else : Text → Text → Text
or_else [] t = t
or_else (c ∷ s) t = c ∷ s

abbrev pub label : Identity → Text
label identity = or_else identity.display_name (or_else identity.email identity.subject)

unfoldable pub value_of : Identity → String → Result Text
value_of identity source =
    if str_eq source "id"
    then ok (or_else identity.email identity.subject)
    else if str_eq source "label"
    then ok (label identity)
    else if str_eq source "email"
    then ok identity.email
    else if str_eq source "subject"
    then ok identity.subject
    else raise value_error

-- One column: an empty stamp is left out.
abbrev pub put_stamp : String → Row → Text → Row
put_stamp column values [] = values
put_stamp column values (c ∷ stamped) = Assoc.insert column (text (c ∷ stamped)) values

unfoldable pub stamp_all : Identity → List (String × String) → Row → Result Row
stamp_all identity [] values = ok values
stamp_all identity ((column, source) ∷ stamps) values =
    if truthy (get values column)
    then stamp_all identity stamps values
    else value_of identity source
      >>= (λ stamped. stamp_all identity stamps (put_stamp column values stamped))

unfoldable pub create {ℓ} :
    {S : Type ℓ} → Writer S → Identity → List (String × String) → S → Row → Result WriteResult × S
create w identity stamps s row = elim (stamp_all identity stamps row) [
  | raise e ↦ (raise e, s)
  | ok values ↦ w.create s values
]

get-put_stamp :
    (column other : String) (values : Row) (stamped : Text)
    → str_eq column other ≡ false
    → get (put_stamp column values stamped) other ≡ get values other
get-put_stamp column other values [] h = refl
get-put_stamp column other values (c ∷ stamped) h =
    lookup-insert column other (text (c ∷ stamped)) values
    ∙ ap (λ b. if b then some (text (c ∷ stamped)) else get values other) h

-- A stamp overrides nothing that the caller sent.
pub get-stamp_all :
    (identity : Identity) (stamps : List (String × String)) (row values : Row) (column : String)
    → truthy (get row column) ≡ true
    → stamp_all identity stamps row ≡ ok values
    → get values column ≡ get row column
unfolding stamp_all
get-stamp_all identity [] row values column given h = ap (λ r. get r column) (ok-inj (sym h))
get-stamp_all identity ((name, source) ∷ stamps) row values column given h =
    go (truthy (get row name)) refl h (λ r. get-stamp_all identity stamps r values column)
  where
    differ : truthy (get row name) ≡ false → str_eq name column ≡ false
    differ e = elim (Bool-cases (str_eq name column)) [
      | inl same ↦
          (let clash = sym e ∙ ap (λ n. truthy (get row n)) ((eq_iff name column).0 same) ∙ given in
            cc)
      | inr apart ↦ apart
    ]

    go :
        (b : Bool)
        → truthy (get row name) ≡ b
        → ◌≡◌ {A = Result Row}
            (if b
              then stamp_all identity stamps row
              else value_of identity source
                >>= (λ stamped. stamp_all identity stamps (put_stamp name row stamped)))
            (ok values)
        → ((r : Row)
            → truthy (get r column) ≡ true
            → stamp_all identity stamps r ≡ ok values
            → get values column ≡ get r column)
        → get values column ≡ get row column
    go true e k again = again row given k
    go false e k again =
        let (stamped, found, rest) =
          ok_bind (value_of identity source)
            (λ stamped. stamp_all identity stamps (put_stamp name row stamped)) values k in
        let same = get-put_stamp name column row stamped (differ e) in
        again (put_stamp name row stamped) (ap truthy same ∙ given) rest ∙ same
