-- ===== src/Domain/Model.antt =====
-- crates/dandori-domain/src/model.rs. Row versions are `i64`s that the program never changes.
use dandori.Base.{ℕ, String, Option}
use dandori.Base.Int.{ℤ}
use dandori.Domain.Ids.{Uuid, WorkspaceId, ProjectId, MilestoneId, IssueId, Instant}

pub data IssueStateCategory : Type 0 where
  open_ active done cancelled : IssueStateCategory

pub data IssuePriority : Type 0 where
  low medium high urgent : IssuePriority

pub record Workspace : Type 0 where
  pub id : WorkspaceId
  pub name : String
  pub row_version : ℕ
  pub created_at : Instant
  pub updated_at : Instant

pub record Project : Type 0 where
  pub id : ProjectId
  pub workspace_id : WorkspaceId
  pub name : String
  pub workflow_version_id : Uuid
  pub row_version : ℕ
  pub created_at : Instant
  pub updated_at : Instant

pub record Issue : Type 0 where
  pub id : IssueId
  pub workspace_id : WorkspaceId
  pub project_id : ProjectId
  pub milestone_id : Option MilestoneId
  pub title : String
  pub description : Option String
  pub state_category : IssueStateCategory
  pub priority : IssuePriority
  pub archived_at : Option Instant
  pub row_version : ℕ
  pub created_at : Instant
  pub updated_at : Instant

pub record WorkflowVersionRef : Type 0 where
  pub workflow_version_id : Uuid
  pub name : String
  pub version : ℤ
  pub checksum : String

pub record Milestone : Type 0 where
  pub id : MilestoneId
  pub workspace_id : WorkspaceId
  pub project_id : ProjectId
  pub title : String
  pub due_at : Option Instant
  pub row_version : ℕ
  pub created_at : Instant
  pub updated_at : Instant
