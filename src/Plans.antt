-- ===== src/Plans.antt =====
-- The four crates that describe and check plans: crates/dandori-graph, crates/dandori-workflow,
-- crates/dandori-sync-github and crates/dandori-orchestrator. Each is its src/lib.rs.
pub mod Graph
pub mod Workflow
pub mod Sync
pub mod Orchestrator
