-- ===== src/Storage/Upload.antt =====
-- UploadPolicy.check and save of app/storage/base.py, over the dict of app/storage/memory.py.
pub mod Stored
use crm_starter.Prelude.{
  ℕ, ◌+◌, Bool, true, false, not, ◌&&◌, ◌==◌, ltb, Option, none, some, List, [], ◌∷◌, ◌++◌, any,
  length, if◌then◌else◌, String, str_eq,
}
use crm_starter.Prelude.Assoc
use crm_starter.Prelude.Assoc.{Dict}
use crm_starter.Core.Value.{Text}

pub data FileError : Type 0 where
  too_large type_not_allowed no_such_file : FileError

pub data Outcome {ℓ} (A : Type ℓ) : Type ℓ where
  ok : A → Outcome A
  raise : FileError → Outcome A

-- Bytes, as numbers.
abbrev pub Bytes : Type 0
Bytes = List ℕ

pub record UploadPolicy : Type 0 where
  pub max_bytes : ℕ
  pub allowed_extensions : List String
  pub blocked_extensions : List String
  pub allowed_types : List String

abbrev pub holds : List String → String → Bool
holds names name = any (str_eq name) names

-- A list that is empty allows all.
abbrev pub allows : List String → String → Bool
allows [] name = true
allows (n ∷ names) name = holds (n ∷ names) name

-- `extension` is `posixpath.splitext(filename)[1].lower()`.
unfoldable pub check : UploadPolicy → String → ℕ → String → Outcome {0} Unit
check policy extension size content_type =
    if ltb policy.max_bytes size
    then raise too_large
    else if holds policy.blocked_extensions extension
    then raise type_not_allowed
    else if not (allows policy.allowed_extensions extension)
    then raise type_not_allowed
    else if not (allows policy.allowed_types content_type)
    then raise type_not_allowed
    else ok tt

-- `counted`, with what `_write` gathers of it, up to the limit; an empty chunk adds nothing.
unfoldable pub gather : UploadPolicy → List Bytes → Bytes → Outcome Bytes
gather policy [] buffer = ok buffer
gather policy (chunk ∷ chunks) buffer =
    let more = gather policy chunks (buffer ++ chunk) in
    if ltb policy.max_bytes (length buffer + length chunk) then raise too_large else more

abbrev pub Files : Type 0
Files = Dict Bytes

-- A file is kept whole or not at all, and an empty one is removed again.
abbrev pub keep_file : String → Outcome Bytes → Files → Outcome ℕ × Files
keep_file key (raise e) files = (raise e, files)
keep_file key (ok []) files = (raise type_not_allowed, Assoc.pop key (Assoc.insert key [] files))
keep_file key (ok (b ∷ bytes)) files = (ok (length (b ∷ bytes)), Assoc.insert key (b ∷ bytes) files)

-- `save`, under a generated key; its answer is the size that was stored.
unfoldable pub save :
    UploadPolicy → String → String → String → List Bytes → Files → Outcome ℕ × Files
unfolding check gather
save policy key extension content_type chunks files = elim (check policy extension 0 content_type) [
  | raise e ↦ (raise e, files)
  | ok accepted ↦ keep_file key (gather policy chunks []) files
]

-- All that `_stream` yields.
unfoldable pub read : String → Files → Outcome Bytes
read key files = elim (Assoc.lookup key files) [
  | none ↦ raise no_such_file
  | some content ↦ ok content
]
