-- ===== src/Worker.antt =====
-- The outbox worker of crates/dandori-app-services/src/worker.
pub mod Config
pub mod Publish
pub mod Registry
pub mod Handlers
pub mod Service
pub mod Selection
