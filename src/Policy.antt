-- ===== src/Policy.antt =====
-- backend/internal/policy: the hard limits of users, groups and organisations.
pub mod Resolver
pub mod Admin
mod Tests
