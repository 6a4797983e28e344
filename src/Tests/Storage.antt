-- ===== src/Tests/Storage.antt =====
-- Names of submitted files.
use crm_starter.Prelude.{◌≡◌, refl, List, [], ◌∷◌, arith}
use crm_starter.Prelude.Assoc
use crm_starter.Storage.Upload.{
  UploadPolicy, Files, Bytes, save, check, gather, read, ok, raise, type_not_allowed, too_large,
}
use crm_starter.Storage.Upload.Stored.{read-save, save_over}
use crm_starter.Core.Value.{Text}
use crm_starter.Storage.Names.{
  safe_filename, is_safe, dashes, drop_left, drop_right, basename, rpartition, lower,
}
use crm_starter.Storage.Names.Safety.{Good, safe_filename-Good}
use crm_starter.Tests.Data.{ascii}

abbrev fallback : Text
fallback = b'f' ∷ b'i' ∷ b'l' ∷ b'e' ∷ []

-- `../.a &.PN`
abbrev submitted : Text
submitted = b'.' ∷ b'.' ∷ b'/' ∷ b'.' ∷ b'a' ∷ b' ' ∷ b'&' ∷ b'.' ∷ b'P' ∷ b'N' ∷ []

reduced : safe_filename ascii (λ t. t) fallback submitted ≡ (b'a' ∷ b'.' ∷ b'p' ∷ b'n' ∷ [])
unfolding safe_filename is_safe dashes drop_left drop_right basename rpartition lower
reduced = refl

safe_filename-Good_example : Good (safe_filename ascii (λ t. t) fallback submitted)
unfolding is_safe
safe_filename-Good_example =
    safe_filename-Good ascii (λ t. t) fallback submitted ((refl, (refl, (refl, (refl, tt)))), refl)

-- Texts and images, of four bytes at most.
abbrev policy : UploadPolicy
policy = record {
  max_bytes = 4;
  allowed_extensions = ".txt" ∷ ".png" ∷ [];
  blocked_extensions = ".sh" ∷ [];
  allowed_types = [];
}

abbrev held : Files
held = ("k0", 7 ∷ []) ∷ []

abbrev sent : List Bytes
sent = (1 ∷ 2 ∷ []) ∷ (3 ∷ []) ∷ []

stored :
    (save policy "k1" ".txt" "text/plain" sent held).1
    ≡ (("k0", 7 ∷ []) ∷ ("k1", 1 ∷ 2 ∷ 3 ∷ []) ∷ [])
unfolding save check gather Assoc.insert
stored = refl

script_refused : save policy "k1" ".sh" "text/plain" sent held ≡ (raise type_not_allowed, held)
unfolding save check gather
script_refused = refl

save_over_example :
    save policy "k1" ".txt" "text/plain" ((1 ∷ 2 ∷ []) ∷ (3 ∷ 4 ∷ 5 ∷ []) ∷ []) held
    ≡ (raise too_large, held)
unfolding check
save_over_example =
    save_over policy "k1" ".txt" "text/plain" ((1 ∷ 2 ∷ []) ∷ (3 ∷ 4 ∷ 5 ∷ []) ∷ []) held refl
      (omega arith)

read-save_example :
    ((save policy "k1" ".txt" "text/plain" sent held).0 ≡ ok 3)
    × (read "k1" (save policy "k1" ".txt" "text/plain" sent held).1 ≡ ok (1 ∷ 2 ∷ 3 ∷ []))
    × (read "k0" (save policy "k1" ".txt" "text/plain" sent held).1 ≡ read "k0" held)
unfolding check
read-save_example =
    read-save policy "k1" ".txt" "text/plain" sent held refl (1 ∷ 2 ∷ 3 ∷ []) "k0" refl
      (omega arith) (omega arith) refl
