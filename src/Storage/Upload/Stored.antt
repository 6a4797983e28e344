-- ===== src/Storage/Upload/Stored.antt =====
-- What save of app/storage/base.py keeps, and what it refuses.
use crm_starter.Prelude.{
  ℕ, ◌≡◌, ◌∙◌, refl, sym, ap, ◌≤◌, ◌<◌, ◌+◌, false, some, List, [], ◌∷◌, ◌++◌, length, ltb, String,
  str_eq, if◌then◌else◌, Bool-cases, inl, inr, arith, length-append,
}
use mathlib.Core.List.{append-nil, append_assoc}
use package.text.Mathlib.TextEquality.{eq_iff}
use crm_starter.Prelude.Merge.{concat}
use crm_starter.Prelude.Assoc
use crm_starter.Prelude.Assoc.{lookup-insert}
use crm_starter.Storage.Upload.{
  UploadPolicy, Bytes, Files, ok, raise, check, gather, keep_file, save, read, too_large,
}

read-insert :
    (key : String) (content : Bytes) (files : Files)
    → read key (Assoc.insert key content files) ≡ ok content
unfolding read
read-insert key content files =
    rw
      (
        lookup-insert key key content files
            ∙ ap (λ b. if b then some content else Assoc.lookup key files)
                ((eq_iff key key).1 refl),
        read,
      )
      refl

read-insert_other :
    (key other : String) (content : Bytes) (files : Files)
    → str_eq key other ≡ false
    → read other (Assoc.insert key content files) ≡ read other files
unfolding read
read-insert_other key other content files h =
    rw
      (
        lookup-insert key other content files
            ∙ ap (λ b. if b then some content else Assoc.lookup other files) h,
        read,
      )
      refl

module _ (policy : UploadPolicy) where
  gather-fits :
      (chunks : List Bytes) (buffer : Bytes)
      → length buffer + length (concat chunks) ≤ policy.max_bytes
      → gather policy chunks buffer ≡ ok (buffer ++ concat chunks)
  unfolding gather
  gather-fits [] buffer h = ap ok (sym (append-nil buffer))
  gather-fits (chunk ∷ chunks) buffer h =
      rw
        (within_of (length buffer + length chunk) policy.max_bytes
          (omega (arith, length-append chunk (concat chunks))))
        (gather-fits chunks (buffer ++ chunk)
            (omega (arith, length-append chunk (concat chunks), length-append buffer chunk))
          ∙ ap ok (append_assoc buffer chunk (concat chunks)))
    where
      within_of : (a b : ℕ) → a ≤ b → ltb b a ≡ false
      within_of a b k = ground arith

  gather-over :
      (chunks : List Bytes) (buffer : Bytes)
      → length buffer ≤ policy.max_bytes
      → policy.max_bytes < length buffer + length (concat chunks)
      → gather policy chunks buffer ≡ raise too_large
  unfolding gather
  gather-over [] buffer k h = absurd (omega arith)
  gather-over (chunk ∷ chunks) buffer k h =
      elim (Bool-cases (ltb policy.max_bytes (length buffer + length chunk))) [
        | inl e ↦ rw e refl
        | inr e ↦ rw e (
            gather-over chunks (buffer ++ chunk) (ground (arith, length-append buffer chunk, e))
              (omega (arith, length-append chunk (concat chunks), length-append buffer chunk)))
      ]

  module _ (key extension content_type : String) (chunks : List Bytes) (files : Files)
      (accepted : check policy extension 0 content_type ≡ ok tt) where
    save_accepted :
        save policy key extension content_type chunks files
        ≡ keep_file key (gather policy chunks []) files
    unfolding save
    save_accepted = rw (accepted, save) refl

    saved :
        (b : ℕ) (bytes : Bytes)
        → concat chunks ≡ b ∷ bytes
        → length (b ∷ bytes) ≤ policy.max_bytes
        → save policy key extension content_type chunks files
          ≡ (ok (length (b ∷ bytes)), Assoc.insert key (b ∷ bytes) files)
    saved b bytes sent fits =
        save_accepted
        ∙ ap (λ g. keep_file key g files)
            (gather-fits chunks [] (omega (arith, ap length sent)) ∙ ap ok sent)

    -- A file of a type that the policy accepts, neither empty nor larger than the limit, is stored
    -- whole: what is read under its key are the bytes that were sent, in whatever chunks they came,
    -- the size that is answered is theirs, and every other file is as it was.
    pub read-save :
        (content : Bytes) (other : String)
        → concat chunks ≡ content
        → 0 < length content
        → length content ≤ policy.max_bytes
        → str_eq key other ≡ false
        → ((save policy key extension content_type chunks files).0 ≡ ok (length content))
          × (read key (save policy key extension content_type chunks files).1 ≡ ok content)
          × (read other (save policy key extension content_type chunks files).1 ≡ read other files)
    read-save [] other sent some_bytes fits differs = absurd (omega arith)
    read-save (b ∷ bytes) other sent some_bytes fits differs = rw (saved b bytes sent fits) (
      refl,
      read-insert key (b ∷ bytes) files,
      read-insert_other key other (b ∷ bytes) files differs,
    )

    -- A file of a type that the policy accepts, but larger than the limit, is refused as too large, in
    -- whatever chunks it comes, and the stored files are as they were.
    pub save_over :
        policy.max_bytes < length (concat chunks)
        → save policy key extension content_type chunks files ≡ (raise too_large, files)
    save_over h =
        save_accepted
        ∙ ap (λ g. keep_file key g files) (gather-over chunks [] (omega arith) (omega arith))
