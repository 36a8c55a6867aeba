-- ===== src/Events/Tables.antt =====
-- What a CreateTable event of src/sqlite/sqlite_event.h puts into its promise.
use yan.Prelude.Text.{Text}
