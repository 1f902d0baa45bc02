-- ===== src/Volume.antt =====
-- backend/internal/volume: volumes of users and teams. `Store` has the tables and the queries of
-- repo.go, `Quota` the operations of service.go that allocate, `Sharing` the shares and the access
-- that they give to a session, `Billing` the storage biller.
pub mod Store
pub mod Quota
pub mod Sharing
pub mod Billing
mod Tests
