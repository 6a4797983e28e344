-- ===== src/Core/Texts.antt =====
-- Splitting texts, as `str.split` and `str.partition` do.
use crm_starter.Prelude.{ℕ, List, [], ◌∷◌, if◌then◌else◌, ◌==◌, ◌&&◌}
use crm_starter.Core.Value.{Text}

-- `text.split(c)`, for one character.
unfoldable pub split_on : ℕ → Text → List Text
split_on sep [] = [] ∷ []
split_on sep (c ∷ t) =
    let rest = split_on sep t in
    if c == sep then [] ∷ rest else elim rest [ [] ↦ (c ∷ []) ∷ [] | w ∷ ws ↦ (c ∷ w) ∷ ws ]

-- `text.partition("__")`: what is before the first one, and what is after it.
unfoldable pub partition_underscores : Text → Text × Text
partition_underscores [] = ([], [])
partition_underscores (c ∷ []) = (c ∷ [], [])
partition_underscores (c ∷ d ∷ t) =
    let rest = partition_underscores (d ∷ t) in
    if c == b'_' && d == b'_' then ([], t) else (c ∷ rest.0, rest.1)

-- `text.partition(c)`, for one character.
unfoldable pub partition_on : ℕ → Text → Text × Text
partition_on sep [] = ([], [])
partition_on sep (c ∷ t) =
    let rest = partition_on sep t in if c == sep then ([], t) else (c ∷ rest.0, rest.1)
