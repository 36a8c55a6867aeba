-- ===== src/Sql.antt =====
-- src/sqlite/sqlite_readref.h and .cpp: the statements that the library writes, and the values that
-- it binds to them.
pub mod Table
pub mod Insert
pub mod Query
pub mod Update
pub mod Bind
pub mod Fetch
