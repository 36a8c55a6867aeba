-- ===== src/Examples.antt =====
-- Tests: concrete structs, objects, conditions and databases, and the theorems at these.
pub mod Objects
pub mod Statements
pub mod Connections
pub mod Threads
pub mod Rows
pub mod Events
pub mod Handles
pub mod Mongo
pub mod Nested
pub mod Documents
