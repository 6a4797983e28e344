-- ===== src/Providers/Sequence.antt =====
-- app/providers/sequence.py: a record gets a reference made of a prefix and its key, in a second write.
pub mod Creation
use crm_starter.Prelude.{
  ◌≡◌, ◌∙◌, refl, ap, sym, Bool, true, false, not, String, Option, none, some, List, [], ◌∷◌, ◌++◌,
  arith, if◌then◌else◌, ◌==◌, str_eq, Bool-cases, inl, inr,
}
use package.text.Mathlib.TextEquality.{eq_iff}
use crm_starter.Prelude.Int.{ℤ, pos, eqb_ℤ}
use crm_starter.Prelude.Assoc
use crm_starter.Prelude.Assoc.{lookup-insert}
use crm_starter.Core.Value.{
  Text, Value, null, bool, num, text, date, datetime, Runtime, Row, Record, get, pk, str,
  merge_rows,
}
use crm_starter.Core.Results.{
  Result, ok, raise, WriteResult, WriteStatus, done, pending, error, success,
}

-- The writes of a provider, which may raise, beside its state.
pub record Writer {ℓ} (S : Type ℓ) : Type ℓ where
  pub create : S → Row → Result WriteResult × S
  pub update : S → Value → Row → Result WriteResult × S

-- Whether Python takes a value for true.
abbrev pub truthy : Option Value → Bool
truthy none = false
truthy (some null) = false
truthy (some (bool b)) = b
truthy (some (num n)) = not (eqb_ℤ n (pos 0))
truthy (some (text [])) = false
truthy (some v) = true

-- `WriteResult.ok`
abbrev pub is_ok : WriteResult → Bool
is_ok r = elim r.status [ done ↦ true | pending ↦ false | error ↦ false ]

-- The record of a result that succeeded, with its key, if that is not None.
abbrev pub named : WriteResult → Option (Record × Value)
named r =
    if is_ok r
    then elim r.record_of [
      | none ↦ none
      | some made ↦ elim (pk made) [ null ↦ none | key ↦ some (made, key) ]
    ]
    else none

-- What is answered once the reference was written, or was not.
abbrev pub finish : WriteResult → Record → Row → WriteResult → WriteResult
finish result made changes patched =
    if is_ok patched
    then elim patched.record_of [
      | some after ↦ success after
      | none ↦ success (record made { data_of = merge_rows made.data_of changes })
    ]
    else result

module _ {ℓ} {S : Type ℓ} (rt : Runtime) (w : Writer S) (column : String) (prefix : Text) where
  -- The second write, for a new record and its key.
  unfoldable pub attach : S → WriteResult → Record → Value → Result WriteResult × S
  attach s result made key =
      let changes : Row = (column, text (prefix ++ str rt key)) ∷ [] in
      let (answer, after) = w.update s key changes in
      elim answer [
        | raise e ↦ (raise e, after)
        | ok patched ↦ (ok (finish result made changes patched), after)
      ]

  unfoldable pub create : S → Row → Result WriteResult × S
  create s row =
      let (answer, after) = w.create s row in
      if truthy (get row column) then (answer, after) else elim answer [
        | raise e ↦ (raise e, after)
        | ok result ↦ elim (named result) [
          | none ↦ (ok result, after)
          | some (made, key) ↦ attach after result made key
        ]
      ]
