-- ===== src/Orders.antt =====
-- internal/orders: the versioned order pipelines.
pub mod Step
pub mod Version
pub mod Types
pub mod Activities
pub mod Register
pub mod Pipeline
mod Tests
