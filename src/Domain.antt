-- ===== src/Domain.antt =====
-- internal/domain: the platform's entities and their validation rules.
pub mod Roles
pub mod Statuses
pub mod Names
pub mod Slugs
pub mod Addresses
pub mod Entities
