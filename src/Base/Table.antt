-- ===== src/Base/Table.antt =====
-- A database table: rows in the order of insertion, each under its primary key.
pub mod Keys
mod Rows
pub use Rows.*
