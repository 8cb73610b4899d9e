-- ===== src/Store/Schema.antt =====
-- The tables of crates/dandori-store/src/migration_sql.rs, a record to a row. `J` is the type of
-- a `jsonb` value, which belongs to serde_json.
use dandori.Base.{ℕ, String, Option, List}
use dandori.Domain.Ids.{Uuid, Instant}
use dandori.Domain.Model.{IssuePriority, IssueStateCategory}

-- `CREATE TYPE outbox_status`
pub data OutboxStatus : Type 0 where
  pending leased delivered failed dead_letter : OutboxStatus

pub record OutboxRow (J : Type 0) : Type 0 where
  pub id : Uuid
  pub workspace_id : Uuid
  pub event_id : Uuid
  pub event_type : String
  pub aggregate_type : String
  pub aggregate_id : Uuid
  pub occurred_at : Instant
  pub correlation_id : Uuid
  pub payload : J
  pub attempts : ℕ
  pub available_at : Instant
  pub status : OutboxStatus
  pub leased_at : Option Instant
  pub leased_until : Option Instant
  pub lease_token : Option Uuid
  pub lease_owner : Option Uuid
  pub published_at : Option Instant
  pub last_error : Option String
  pub created_at : Instant
  pub updated_at : Instant

pub record IdempotencyRow (J : Type 0) : Type 0 where
  pub workspace_id : Uuid
  pub command_name : String
  pub idempotency_key : String
  pub request_fingerprint : String
  pub response_payload : J
  pub expires_at : Instant
  pub created_at : Instant

pub record WorkspaceRow : Type 0 where
  pub id : Uuid
  pub name : String
  pub shard_bucket : ℕ
  pub row_version : ℕ
  pub created_at : Instant
  pub updated_at : Instant

pub record WorkflowVersionRow : Type 0 where
  pub id : Uuid
  pub workspace_id : Uuid

pub record ProjectRow : Type 0 where
  pub id : Uuid
  pub workspace_id : Uuid
  pub name : String
  pub workflow_version_id : Uuid
  pub row_version : ℕ
  pub created_at : Instant
  pub updated_at : Instant

pub record MilestoneRow : Type 0 where
  pub id : Uuid
  pub workspace_id : Uuid
  pub project_id : Uuid

pub record IssueRow : Type 0 where
  pub id : Uuid
  pub workspace_id : Uuid
  pub project_id : Uuid
  pub milestone_id : Option Uuid
  pub title : String
  pub description : Option String
  pub state_category : IssueStateCategory
  pub priority : IssuePriority
  pub archived_at : Option Instant
  pub row_version : ℕ
  pub created_at : Instant
  pub updated_at : Instant

pub record ActivityRow (J : Type 0) : Type 0 where
  pub id : Uuid
  pub workspace_id : Uuid
  pub project_id : Uuid
  pub issue_id : Option Uuid
  pub command_id : Uuid
  pub actor_id : Uuid
  pub event_type : String
  pub event_payload : J
  pub created_at : Instant

-- `CREATE TABLE worker_partition_lease`
pub record PartitionLease : Type 0 where
  pub workspace_id : Uuid
  pub shard_bucket : ℕ
  pub lease_owner : Uuid
  pub leased_at : Instant
  pub leased_until : Instant
  pub updated_at : Instant

-- The tables together.
pub record Db (J : Type 0) : Type 0 where
  pub workspaces : List WorkspaceRow
  pub workflow_versions : List WorkflowVersionRow
  pub projects : List ProjectRow
  pub milestones : List MilestoneRow
  pub issues : List IssueRow
  pub activities : List (ActivityRow J)
  pub outbox : List (OutboxRow J)
  pub idempotency : List (IdempotencyRow J)
  pub leases : List PartitionLease
