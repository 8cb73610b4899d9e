-- ===== src/Store/Error.antt =====
-- `StoreError` of crates/dandori-store/src/pg_store.rs
use dandori.Base.{ℕ, String}
use dandori.Domain.Ids.{Uuid, Instant}
use dandori.Domain.Error.{DomainError}
use dandori.Store.Schema.{OutboxStatus}

-- What PostgreSQL answers to a statement that it refuses.
pub data Refusal : Type 0 where
  unique_violation foreign_key_violation check_violation row_security_violation : Refusal

pub data StoreError : Type 0 where
  sqlx sea_orm : Refusal → StoreError
  serde : String → StoreError
  project_not_found workflow_version_not_found milestone_not_found : StoreError
  milestone_project_mismatch idempotency_conflict : StoreError
  idempotency_replay_missing_issue : StoreError
  invalid_state invalid_priority : String → StoreError
  -- workspace, row, rows affected
  outbox_update_not_single_row : Uuid → Uuid → ℕ → StoreError
  outbox_lease_missing : Uuid → Uuid → StoreError
  outbox_not_leased : Uuid → Uuid → OutboxStatus → StoreError
  -- workspace, row, leased until, now
  outbox_lease_expired : Uuid → Uuid → Instant → Instant → StoreError
  -- workspace, row, expected, actual
  outbox_lease_owner_mismatch : Uuid → Uuid → Uuid → Uuid → StoreError
  outbox_lease_token_mismatch : Uuid → Uuid → Uuid → Uuid → StoreError
  domain : DomainError → StoreError
  invalid_input : String → StoreError
