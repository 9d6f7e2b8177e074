-- ===== src/Store.antt =====
-- internal/store: the tables, and the statements on them as the SQL text states them.
pub mod State
pub mod Exec
pub mod Users
pub mod Organizations
pub mod Groups
pub mod Externals
pub mod Invites
pub mod Setup
pub mod Domains
pub mod Mail
