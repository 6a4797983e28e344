-- ===== src/Tests/Cache.antt =====
-- The cache at concrete runs.
use crm_starter.Prelude.{◌≡◌, refl, some, none, [], ◌∷◌, List, ℕ}
use crm_starter.Prelude.Assoc
use crm_starter.Cache.{Cache, Call, read, write, forget, wipe, run, get, set, evict, delete, clear}
use crm_starter.Cache.Ideal.{stored, answer, get-stored}

abbrev empty : Cache ℕ
empty = record { entries = []; max_entries = 2 }

-- More keys than there is room for, an expired one, and a prefix wiped.
abbrev calls : List (Call ℕ)
calls =
    write 1 "labels:1" 10 (some 5)
    ∷ write 1 "labels:2" 20 none
    ∷ read 1 "labels:1"
    ∷ write 1 "count" 30 (some 9)
    ∷ wipe "labels:"
    ∷ forget ("none" ∷ [])
    ∷ []

get-stored_example : answer 7 (stored (λ k. none) 0 calls "count") ≡ some 30
unfolding get Assoc.lookup run delete Assoc.pop_all Assoc.pop clear set Assoc.insert evict
get-stored_example = get-stored 2 0 7 calls "count" 30 refl
