-- ===== src/Core/Results.antt =====
-- app/core/errors.py and the write results of app/core/results.py. A call that may raise returns a
-- `Result`; the message of an error is not kept.
use crm_starter.Prelude.{◌≡◌, ◌⊎◌, inl, inr, refl, Bool, true, false, Option, none, some}
use crm_starter.Core.Value.{Record}

pub data Error : Type 0 where
  not_found conflict too_many_rows unsupported value_error config_error type_error key_error
        interrupted :
      Error

pub data Result {ℓ} (A : Type ℓ) : Type ℓ where
  ok : A → Result A
  raise : Error → Result A

infixl 5 ◌>>=◌
abbrev pub ◌>>=◌ {ℓ κ} : {A : Type ℓ} {B : Type κ} → Result A → (A → Result B) → Result B
ok a >>= f = f a
raise e >>= f = raise e

pub data WriteStatus : Type 0 where
  done pending error : WriteStatus

-- What a write returns, less its message and correlation id.
pub record WriteResult : Type 0 where
  pub status : WriteStatus
  pub record_of : Option Record

abbrev pub success : Record → WriteResult
success r = record { status = done; record_of = some r }

abbrev pub failure : WriteResult
failure = record { status = error; record_of = none }

-- The write was not rejected: it succeeded or was queued.
abbrev pub is_accepted : WriteStatus → Bool
is_accepted done = true
is_accepted pending = true
is_accepted error = false

pub Result-cases {ℓ} :
    {A : Type ℓ} (r : Result A) → ((a : A) × (r ≡ ok a)) ⊎ ((e : Error) × (r ≡ raise e))
Result-cases (ok a) = inl (a, refl)
Result-cases (raise e) = inr (e, refl)

pub ok-inj {ℓ} : {A : Type ℓ} {a b : A} → ok a ≡ ok b → a ≡ b
ok-inj h = cc

-- A chain of calls answers only if each of them does.
pub ok_bind {ℓ κ} :
    {A : Type ℓ} {B : Type κ} (r : Result A) (f : A → Result B) (b : B)
    → r >>= f ≡ ok b
    → (a : A) × (r ≡ ok a) × (f a ≡ ok b)
ok_bind (ok a) f b h = (a, refl, h)
ok_bind (raise e) f b h = cc
