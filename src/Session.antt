-- ===== src/Session.antt =====
-- backend/internal/session: billing, limits and the reclaiming of homes.
pub mod Billing
pub mod Limits
pub mod HomeReaper
pub mod Lifecycle
pub mod Lease
mod Tests
