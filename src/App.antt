-- ===== src/App.antt =====
-- crates/dandori-app-services, but for its worker, which is Worker.
pub mod Error
pub mod Contract
pub mod Service
pub mod Adapters
