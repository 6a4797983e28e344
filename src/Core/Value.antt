-- ===== src/Core/Value.antt =====
-- The values that a record's columns hold (`Any` in app/core/results.py), and `Record`. Floats and
-- decimals are not among them, and every instant is in UTC. A text is its list of code points.
pub mod Equality
pub mod Merging
use crm_starter.Prelude.{
  ℕ, ◌*◌, Bool, true, false, String, Option, none, some, List, [], ◌∷◌, ltb, ◌==◌, not, ◌&&◌,
  if◌then◌else◌,
}
use crm_starter.Prelude.Int.{ℤ, pos, eqb_ℤ, ltb_ℤ}
use crm_starter.Prelude.Assoc

abbrev pub Text : Type 0
Text = List ℕ

pub data Value : Type 0 where
  null : Value
  bool : Bool → Value
  num : ℤ → Value
  text : Text → Value
  -- days, and microseconds, since the first of January 1970
  date : ℕ → Value
  datetime : ℕ → Value

abbrev pub text_eq : Text → Text → Bool
text_eq [] [] = true
text_eq (a ∷ s) (b ∷ t) = a == b && text_eq s t
text_eq _ _ = false

-- Texts compare by their first code points that differ.
abbrev pub text_lt : Text → Text → Bool
text_lt s [] = false
text_lt [] (b ∷ t) = true
text_lt (a ∷ s) (b ∷ t) = let rest = text_lt s t in if a == b then rest else ltb a b

-- `True` and `False` are the numbers 1 and 0.
abbrev pub int_of : Bool → ℤ
int_of true = pos 1
int_of false = pos 0

-- `a == b` never raises; values of different kinds differ.
unfoldable pub py_eq : Value → Value → Bool
py_eq null null = true
py_eq (bool a) (bool b) = eqb_ℤ (int_of a) (int_of b)
py_eq (bool a) (num b) = eqb_ℤ (int_of a) b
py_eq (num a) (bool b) = eqb_ℤ a (int_of b)
py_eq (num a) (num b) = eqb_ℤ a b
py_eq (text a) (text b) = text_eq a b
py_eq (date a) (date b) = a == b
py_eq (datetime a) (datetime b) = a == b
py_eq _ _ = false

-- `a < b`; `none` stands for the TypeError of values that have no order.
abbrev pub py_lt : Value → Value → Option Bool
py_lt (bool a) (bool b) = some (ltb_ℤ (int_of a) (int_of b))
py_lt (bool a) (num b) = some (ltb_ℤ (int_of a) b)
py_lt (num a) (bool b) = some (ltb_ℤ a (int_of b))
py_lt (num a) (num b) = some (ltb_ℤ a b)
py_lt (text a) (text b) = some (text_lt a b)
py_lt (date a) (date b) = some (ltb a b)
py_lt (datetime a) (datetime b) = some (ltb a b)
py_lt _ _ = none

-- What the runtime does with values and the program only calls: Unicode case folding and blanks,
-- and `str` of a number, a date, an instant and a list.
pub record Runtime : Type 0 where
  pub casefold : Text → Text
  pub is_space : ℕ → Bool
  pub show_list : List Value → Text
  pub show_num : ℤ → Text
  pub show_date : ℕ → Text
  pub show_datetime : ℕ → Text

abbrev pub show_bool : Bool → Text
show_bool true = b'T' ∷ b'r' ∷ b'u' ∷ b'e' ∷ []
show_bool false = b'F' ∷ b'a' ∷ b'l' ∷ b's' ∷ b'e' ∷ []

-- `str(v)`.
abbrev pub str : Runtime → Value → Text
str rt null = b'N' ∷ b'o' ∷ b'n' ∷ b'e' ∷ []
str rt (bool b) = show_bool b
str rt (num n) = rt.show_num n
str rt (text t) = t
str rt (date d) = rt.show_date d
str rt (datetime t) = rt.show_datetime t

-- The columns of one row, by name.
abbrev pub Row : Type 0
Row = List (String × Value)

abbrev pub get : Row → String → Option Value
get row field = Assoc.lookup field row

-- A row and the name of its key column.
pub record Record : Type 0 where
  pub data_of : Row
  pub pk_field : String

-- The record's key, `None` if the column is absent.
abbrev pub pk : Record → Value
pk r = elim (get r.data_of r.pk_field) [ none ↦ null | some v ↦ v ]

-- `{**self._data, **changes}`.
unfoldable pub merge_rows : Row → Row → Row
merge_rows row [] = row
merge_rows row ((k, v) ∷ changes) = merge_rows (Assoc.insert k v row) changes
