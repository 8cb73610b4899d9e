-- ===== src/Store.antt =====
-- crates/dandori-store: the tables, and the repositories as functions on them.
pub mod Schema
pub mod Error
pub mod Table
pub mod Outbox
pub mod Issue
pub mod Partition
pub mod Tenants
