-- ===== src/Repo.antt =====
-- src/ma/core/repo: the two tables and the repositories over them.
pub mod Models
pub mod Sessions
pub mod Messages
pub mod Rows
pub mod Sql
