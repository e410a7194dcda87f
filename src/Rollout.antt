-- ===== src/Rollout.antt =====
-- internal/rollout: the coordinator that moves new orders onto another version.
pub mod Types
pub mod Control
pub mod World
pub mod Gate
pub mod Hold
pub mod Walk
pub mod Run
mod Tests
