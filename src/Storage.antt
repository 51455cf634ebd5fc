-- ===== src/Storage.antt =====
-- internal/storage: the tables, the SQL statements, and the methods of `Store`.
pub mod Tables
pub mod Columns
pub mod Statements
pub mod Store
pub mod Lookups
pub mod Ownership
pub mod Open
