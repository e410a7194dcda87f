-- ===== src/Traffic.antt =====
-- internal/traffic: the generator of customer orders, and bursts.
pub mod Types
pub mod Batches
pub mod Burst
pub mod Control
pub mod Activities
pub mod Director
mod Tests
