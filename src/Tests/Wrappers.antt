-- ===== src/Tests/Wrappers.antt =====
-- The sequencing wrapper over a table of three rows.
use crm_starter.Prelude.{[], ◌∷◌}
use crm_starter.Core.Value.{Text, Row, text}
use crm_starter.Tests.Data.{oslo}

abbrev ticket : Text
ticket = b'T' ∷ b'-' ∷ []

abbrev new_row : Row
new_row = ("city", text oslo) ∷ ("ref", text []) ∷ []
