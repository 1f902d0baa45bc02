-- ===== src/Resource.antt =====
-- backend/internal/resource/availability.go: which GPUs are free, and whether a session fits. `Counter`
-- is sessionCounter, `Availability` the view by node and by type, `Placement` the gate.
pub mod Counter
pub mod Availability
pub mod Placement
pub mod ShareMode
mod Tests
