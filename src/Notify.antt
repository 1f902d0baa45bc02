-- ===== src/Notify.antt =====
-- backend/internal/notify: the alert rules, and the engine that evaluates them.
pub mod Engine
mod Tests
