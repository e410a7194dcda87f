-- ===== src/Api.antt =====
-- internal/api: the server of the dashboard.
mod Tests
pub mod History
pub mod Throughput
pub mod Watch
pub mod Hub
pub mod Requests
pub mod Execution
pub mod Generator
pub mod Coordinator
pub mod Handlers
pub mod Snapshot
pub mod Bootstrap
pub mod Recover
pub mod Reconcile
