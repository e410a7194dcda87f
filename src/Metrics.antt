-- ===== src/Metrics.antt =====
-- internal/metrics: bulk reads of what is happening right now.
pub mod Types
mod Tests
pub mod Text
pub mod Samples
pub mod SyncMatch
pub mod Counts
pub mod Workers
pub mod Health
pub mod Capacity
pub mod LiveOrders
