-- ===== src/Events/Entities.antt =====
-- What WriteEvent of src/sqlite/sqlite_event.h counts of the objects that it is given.
use yan.Prelude.{ℕ, ◌+◌, List, [], ◌∷◌, length}
use yan.Prelude.Text.{Text}
use yan.Events.Write.{Written, single, sequence}

-- The number of the objects of a call of `write`.
unfoldable pub objects : List Written → ℕ
objects [] = 0
objects (single s o ∷ ws) = 1 + objects ws
objects (sequence s os ∷ ws) = length os + objects ws
