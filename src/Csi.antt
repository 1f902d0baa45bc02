-- ===== src/Csi.antt =====
-- backend/internal/csi: the collector of a node's orphaned images and mounts.
pub mod Sweep
mod Tests
