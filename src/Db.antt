-- ===== src/Db.antt =====
-- The database layer: include/db and src/db.
pub mod Sqlite
pub mod Model
pub mod Manager
pub mod Users
pub mod Histories
pub mod Contract
pub mod Memory
