-- ===== src/Domain/Event.antt =====
-- crates/dandori-domain/src/event.rs
use dandori.Base.{String, Option, none, some, str_eq, if◌then◌else◌}
use dandori.Domain.Ids.{Uuid, WorkspaceId, ProjectId, MilestoneId, IssueId, Instant}
use dandori.Domain.Model.{IssuePriority}

pub data EventType : Type 0 where
  issue_created_v1 project_created_v1 workspace_created_v1 : EventType

unfoldable pub as_str : EventType → String
as_str issue_created_v1 = "issue.created.v1"
as_str project_created_v1 = "project.created.v1"
as_str workspace_created_v1 = "workspace.created.v1"

unfoldable pub parse : String → Option EventType
parse value =
    if str_eq value "issue.created.v1"
    then some issue_created_v1
    else if str_eq value "project.created.v1"
    then some project_created_v1
    else if str_eq value "workspace.created.v1"
    then some workspace_created_v1
    else none

pub record IssueCreatedEventV1 : Type 0 where
  pub event_id : Uuid
  pub issue_id : IssueId
  pub workspace_id : WorkspaceId
  pub project_id : ProjectId
  pub milestone_id : Option MilestoneId
  pub actor_id : Uuid
  pub occurred_at : Instant
  pub title : String
  pub description : Option String
  pub priority : IssuePriority

pub record WorkspaceCreatedEventV1 : Type 0 where
  pub event_id : Uuid
  pub workspace_id : WorkspaceId
  pub actor_id : Uuid
  pub occurred_at : Instant
  pub name : String

pub record ProjectCreatedEventV1 : Type 0 where
  pub event_id : Uuid
  pub workspace_id : WorkspaceId
  pub project_id : ProjectId
  pub workflow_version_id : Uuid
  pub actor_id : Uuid
  pub occurred_at : Instant
  pub name : String

pub data IssueEventV1 : Type 0 where
  issue_created : IssueCreatedEventV1 → IssueEventV1

pub data WorkspaceEventV1 : Type 0 where
  workspace_created : WorkspaceCreatedEventV1 → WorkspaceEventV1

pub data ProjectEventV1 : Type 0 where
  project_created : ProjectCreatedEventV1 → ProjectEventV1

unfoldable pub issue_event_type : IssueEventV1 → EventType
issue_event_type (issue_created event) = issue_created_v1

unfoldable pub workspace_event_type : WorkspaceEventV1 → EventType
workspace_event_type (workspace_created event) = workspace_created_v1

unfoldable pub project_event_type : ProjectEventV1 → EventType
project_event_type (project_created event) = project_created_v1
