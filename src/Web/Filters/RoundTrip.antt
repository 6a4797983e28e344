-- ===== src/Web/Filters/RoundTrip.antt =====
-- What a canonical key says is what is read back.
use crm_starter.Prelude.{
  ℕ, String, List, map, ◌≡◌, refl, true, false, ◌&&◌, some, [], ◌∷◌, ◌++◌, drop, length, ◌==◌,
}
use crm_starter.Core.Value.{Text, Runtime, Value, null, bool, num, text, date, datetime}
use crm_starter.Core.Query.{
  Op, Operand, scalar, sequence, is_sequence_op, is_valid_condition, make_condition, cond, SortDir,
  asc, desc,
}
use crm_starter.Core.Results.{ok}
use crm_starter.Core.Texts.{partition_underscores, split_on}
use crm_starter.Core.Placement.{strip, lstrip, rstrip}
use crm_starter.Providers.Local.{is_prefix, is_null}
use crm_starter.Auth.Passwords.{codes}
use crm_starter.Resources.Policy.{Identity}
use crm_starter.Web.Filters.{
  Field, Resource, Calendar, prefix, separator, op_name, parse_op, is_visible, supports,
  field_named, is_unary, resolve_alias,
}
use crm_starter.Web.Filters.Parsing.{
  resolve_all, read_all, read_sequence, read_scalar, parse_value, target, parse_spec, parse_pair,
  parse_condition, filter_key, parse_token, show_token,
}

-- A name without two underscores in a row, and without one at its end.
abbrev pub IsPlain : Text → Type 0
IsPlain [] = Unit
IsPlain (c ∷ []) = (c == b'_') ≡ false
IsPlain (c ∷ d ∷ t) = ((c == b'_' && d == b'_') ≡ false) × IsPlain (d ∷ t)

partition-plain : (name : Text) → IsPlain name → partition_underscores name ≡ (name, [])
unfolding partition_underscores
partition-plain [] h = refl
partition-plain (c ∷ []) h = refl
partition-plain (c ∷ d ∷ t) h = rw h.0 (rw (partition-plain (d ∷ t) h.1) refl)

partition-separator :
    (name rest : Text)
    → IsPlain name
    → partition_underscores (name ++ (separator ++ rest)) ≡ (name, rest)
unfolding partition_underscores
partition-separator [] rest h = refl
partition-separator (c ∷ []) rest h = rw h refl
partition-separator (c ∷ d ∷ t) rest h = rw h.0 (rw (partition-separator (d ∷ t) rest h.1) refl)

-- What stands behind the separator, if there is one.
abbrev suffix : Op → Text
suffix Op.eq = []
suffix op = op_name op

parse_op-suffix : (op : Op) → parse_op (suffix op) ≡ some op
unfolding parse_op
parse_op-suffix Op.eq = refl
parse_op-suffix Op.ne = refl
parse_op-suffix Op.lt = refl
parse_op-suffix Op.lte = refl
parse_op-suffix Op.gt = refl
parse_op-suffix Op.gte = refl
parse_op-suffix Op.in_ = refl
parse_op-suffix Op.not_in = refl
parse_op-suffix Op.contains = refl
parse_op-suffix Op.icontains = refl
parse_op-suffix Op.startswith = refl
parse_op-suffix Op.endswith = refl
parse_op-suffix Op.is_null = refl
parse_op-suffix Op.not_null = refl
parse_op-suffix Op.between = refl

filter_key_starts : (name : Text) (op : Op) → is_prefix prefix (filter_key name op) ≡ true
unfolding filter_key
filter_key_starts name Op.eq = refl
filter_key_starts name op = refl

filter_key_splits :
    (name : Text) (op : Op)
    → IsPlain name
    → partition_underscores (drop (length prefix) (filter_key name op)) ≡ (name, suffix op)
unfolding filter_key
filter_key_splits name Op.eq h = partition-plain name h
filter_key_splits name op h = partition-separator name (op_name op) h

target_found :
    (rt : Runtime) (c : Calendar) (r : Resource) (identity : Identity) (f : Field) (op : Op)
    → field_named (codes f.name) r.fields ≡ some f
    → is_visible identity f ≡ true
    → supports f.supported_ops op ≡ true
    → target rt c r identity (codes f.name) (suffix op) ≡ some (f, op)
unfolding target
target_found rt c r identity f op found visible supported =
    rw (found, target) (rw (parse_op-suffix op) (rw visible (rw supported refl)))

-- What a text of a query string says as the value of a condition: nothing for an operator that takes
-- no value; the values between the commas, each with its aliases resolved and read by the field; or
-- the one value, with its alias resolved and read by the field.
pub data Says (rt : Runtime) (c : Calendar) (r : Resource) (identity : Identity) (f : Field)
    : Op → Text → Operand → Type 0 where
  unary : (op : Op) (raw : Text) → is_unary op ≡ true → Says rt c r identity f op raw (scalar null)
  several :
      (op : Op) (ch : ℕ) (raw : Text) (vs : List Value) (w : Value) (ws : List Value)
      → is_unary op ≡ false
      → is_sequence_op op ≡ true
      → resolve_all rt c r identity (map (strip rt) (split_on b',' (ch ∷ raw))) ≡ some vs
      → read_all f vs ≡ ok (w ∷ ws)
      → is_valid_condition op (sequence (w ∷ ws)) ≡ true
      → Says rt c r identity f op (ch ∷ raw) (sequence (w ∷ ws))
  one :
      (op : Op) (ch : ℕ) (raw : Text) (v w : Value)
      → is_unary op ≡ false
      → is_sequence_op op ≡ false
      → resolve_alias rt c r identity (ch ∷ raw) ≡ some v
      → f.to_python v ≡ ok (some w)
      → is_null w ≡ false
      → Says rt c r identity f op (ch ∷ raw) (scalar w)

read_scalar-there :
    (f : Field) (v w : Value)
    → f.to_python v ≡ ok (some w)
    → is_null w ≡ false
    → read_scalar f v ≡ ok (some (scalar w))
read_scalar-there f v null e h = cc
read_scalar-there f v (bool x) e h = rw (e, read_scalar) refl
read_scalar-there f v (num x) e h = rw (e, read_scalar) refl
read_scalar-there f v (text x) e h = rw (e, read_scalar) refl
read_scalar-there f v (date x) e h = rw (e, read_scalar) refl
read_scalar-there f v (datetime x) e h = rw (e, read_scalar) refl

scalar_condition :
    (field : String) (op : Op) (w : Value)
    → is_sequence_op op ≡ false
    → make_condition field op (scalar w)
      ≡ some (record { field = field; op = op; value = scalar w })
unfolding make_condition is_valid_condition
scalar_condition field op w h = rw h refl

parse_condition-Says :
    (rt : Runtime) (c : Calendar) (r : Resource) (identity : Identity) (f : Field) (op : Op)
    (raw : Text) (value : Operand)
    → Says rt c r identity f op raw value
    → parse_condition rt c r identity f op raw
      ≡ some (cond (record { field = f.name; op = op; value = value }))
unfolding parse_condition parse_value make_condition
parse_condition-Says rt c r identity f _ _ _ (unary op [] takes_none) =
    rw (takes_none, parse_condition, parse_value) (rw takes_none refl)
parse_condition-Says rt c r identity f _ _ _ (unary op (ch ∷ raw) takes_none) =
    rw (takes_none, parse_condition, parse_value) (rw takes_none refl)
parse_condition-Says rt c r identity f _ _ _
      (several op ch raw vs w ws no_unary seq found reads valid) =
    rw (no_unary, parse_condition, parse_value)
      (rw seq (rw found (rw (reads, read_sequence) (rw (valid, make_condition) refl))))
parse_condition-Says rt c r identity f _ _ _ (one op ch raw v w no_unary no_seq found reads there) =
    rw (no_unary, parse_condition, parse_value)
      (rw no_seq (
        rw found (
          rw (read_scalar-there f v w reads there)
            (rw (scalar_condition f.name op w no_seq) refl))))

-- A pair under the canonical key of a field and an operator is read as the condition of that field
-- and that operator on the value that its text says, if the caller may see the field, it supports the
-- operator, and its name has no two underscores in a row and none at its end.
pub parse_pair-filter_key :
    (rt : Runtime) (c : Calendar) (r : Resource) (identity : Identity) (f : Field) (op : Op)
    (raw : Text) (value : Operand)
    → field_named (codes f.name) r.fields ≡ some f
    → IsPlain (codes f.name)
    → is_visible identity f ≡ true
    → supports f.supported_ops op ≡ true
    → Says rt c r identity f op raw value
    → parse_pair rt c r identity (filter_key (codes f.name) op, raw)
      ≡ some (cond (record { field = f.name; op = op; value = value }))
unfolding parse_pair
parse_pair-filter_key rt c r identity f op raw value found plain visible supported says =
    rw (filter_key_starts (codes f.name) op) (
      rw (filter_key_splits (codes f.name) op plain) (
        rw (target_found rt c r identity f op found visible supported, parse_spec)
          (parse_condition-Says rt c r identity f op raw value says)))

strip-eq :
    (rt : Runtime) (c : ℕ) (t : Text)
    → rt.is_space c ≡ false
    → rstrip rt (c ∷ t) ≡ c ∷ t
    → strip rt (c ∷ t) ≡ c ∷ t
unfolding lstrip
strip-eq rt c t front back = rw (front, lstrip) back

-- A sort that is printed is read back, if the name of its column has no blanks at its ends and
-- does not begin with a sign.
pub parse_token-show_token :
    (rt : Runtime) (c : ℕ) (name : Text) (dir : SortDir)
    → rt.is_space c ≡ false
    → rstrip rt (c ∷ name) ≡ c ∷ name
    → rt.is_space b'-' ≡ false
    → (c == b'-') ≡ false
    → (c == b'+') ≡ false
    → parse_token rt (show_token (c ∷ name) dir) ≡ (c ∷ name, dir)
unfolding parse_token show_token rstrip
parse_token-show_token rt c name asc front back sign minus plus =
    rw (strip-eq rt c name front back, parse_token) (rw minus (rw plus refl))
parse_token-show_token rt c name desc front back sign minus plus =
    rw (strip-eq rt b'-' (c ∷ name) sign (rw (back, rstrip) refl), parse_token) refl
