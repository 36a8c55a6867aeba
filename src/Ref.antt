-- ===== src/Ref.antt =====
-- src/base/param.h and src/base/ref.h: what a STRUCT declares, and the objects of such a class.
pub mod Word
pub mod Param
pub mod Struct
pub mod Object
pub mod Nested
