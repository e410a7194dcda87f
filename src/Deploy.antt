-- ===== src/Deploy.antt =====
-- internal/deploy: the labelled view of one Worker Deployment.
pub mod Types
pub mod Labels
pub mod Restore
pub mod Publish
pub mod Describe
mod Tests
