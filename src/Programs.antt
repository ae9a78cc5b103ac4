-- ===== src/Programs.antt =====
-- src/programs: the native programs and their ids.
pub mod Ids
pub mod System
pub mod Token
pub mod Loader
