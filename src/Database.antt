-- ===== src/Database.antt =====
-- The transactions in the two databases: db.cpp.
pub mod Rows
pub mod Save
pub mod Move
pub mod Keys
pub mod Keeps
pub mod Kept
pub mod Emptied
pub mod Lookups
