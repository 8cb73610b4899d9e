-- ===== src/Store/Issue.antt =====
-- crates/dandori-store/src/repositories/issue.rs
pub mod Rows
pub mod Reservation
pub mod Insert
pub mod Create
