-- ===== src/Gateway.antt =====
-- backend/internal/gateway: the session access gateway.
pub mod Nonce
pub mod Token
pub mod Proxy
mod Tests
