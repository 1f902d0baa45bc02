-- ===== src/Wallet.antt =====
-- backend/internal/wallet, and the pool operations of backend/internal/org that it calls.
pub mod Db
pub mod Store
pub mod Pool
pub mod Service
pub mod Refill
pub mod Tests
