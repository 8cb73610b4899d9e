-- ===== src/Store/Outbox.antt =====
-- crates/dandori-store/src/repositories/outbox.rs. An operation is a transaction on the outbox
-- table: it returns the table that it commits, and an error stands for a rollback. Statements see
-- the rows of the tenant that `set_workspace_context_tx` names (the policy `tenant_outbox_policy`).
pub mod Defs
pub mod Lease
pub mod Mark
pub mod Cleanup
pub mod History
