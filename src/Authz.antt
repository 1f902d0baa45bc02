-- ===== src/Authz.antt =====
-- backend/internal/authz/authz.go: the middlewares as functions from what they read of the request
-- (user, path parameter, header) to the reply. `next` lets the request through.
pub mod Scope
pub mod Role
mod Tests
