-- ===== src/App/Contract.antt =====
-- The types of crates/dandori-contract/src/lib.rs, and the mappings to them in
-- crates/dandori-app-services/src/service.rs
use dandori.Base.{ℕ, String, Bool, Option, some, Result}
use dandori.Domain.Ids.{Uuid, Instant}
use dandori.Domain.Model.{IssueStateCategory, IssuePriority, Issue}
use dandori.App.Error.{AppServiceError}

pub data IssueStateCategoryDto : Type 0 where
  open_ active done cancelled : IssueStateCategoryDto

pub data IssuePriorityDto : Type 0 where
  low medium high urgent : IssuePriorityDto

pub record IssueDto : Type 0 where
  pub id : Uuid
  pub workspace_id : Uuid
  pub project_id : Uuid
  pub milestone_id : Option Uuid
  pub title : String
  pub description : Option String
  pub state_category : IssueStateCategoryDto
  pub priority : IssuePriorityDto
  pub archived_at : Option Instant
  pub row_version : ℕ
  pub created_at : Instant
  pub updated_at : Instant

pub record CreateIssueRequest : Type 0 where
  pub idempotency_key : String
  pub project_id : Uuid
  pub milestone_id : Option Uuid
  pub title : String
  pub description : Option String
  pub priority : IssuePriorityDto

pub record CreateIssueResponse : Type 0 where
  pub issue : IssueDto
  pub idempotent_replay : Bool

pub record GetIssueResponse : Type 0 where
  pub issue : IssueDto

pub record ErrorEnvelope : Type 0 where
  pub code : String
  pub message : String
  pub correlation_id : Option Uuid

-- `Envelope<T>`, whose tags are `ok` and `err`.
abbrev pub Envelope : Type 0 → Type 0
Envelope T = Result T ErrorEnvelope

abbrev pub map_priority_from_dto : IssuePriorityDto → IssuePriority
map_priority_from_dto IssuePriorityDto.low = IssuePriority.low
map_priority_from_dto IssuePriorityDto.medium = IssuePriority.medium
map_priority_from_dto IssuePriorityDto.high = IssuePriority.high
map_priority_from_dto IssuePriorityDto.urgent = IssuePriority.urgent

abbrev pub map_state_to_dto : IssueStateCategory → IssueStateCategoryDto
map_state_to_dto IssueStateCategory.open_ = IssueStateCategoryDto.open_
map_state_to_dto IssueStateCategory.active = IssueStateCategoryDto.active
map_state_to_dto IssueStateCategory.done = IssueStateCategoryDto.done
map_state_to_dto IssueStateCategory.cancelled = IssueStateCategoryDto.cancelled

abbrev pub map_priority_to_dto : IssuePriority → IssuePriorityDto
map_priority_to_dto IssuePriority.low = IssuePriorityDto.low
map_priority_to_dto IssuePriority.medium = IssuePriorityDto.medium
map_priority_to_dto IssuePriority.high = IssuePriorityDto.high
map_priority_to_dto IssuePriority.urgent = IssuePriorityDto.urgent

unfoldable pub map_issue_to_dto : Issue → IssueDto
map_issue_to_dto issue = record {
  id = issue.id;
  workspace_id = issue.workspace_id;
  project_id = issue.project_id;
  milestone_id = issue.milestone_id;
  title = issue.title;
  description = issue.description;
  state_category = map_state_to_dto issue.state_category;
  priority = map_priority_to_dto issue.priority;
  archived_at = issue.archived_at;
  row_version = issue.row_version;
  created_at = issue.created_at;
  updated_at = issue.updated_at;
}

abbrev pub map_error_to_transport : AppServiceError → ErrorEnvelope
map_error_to_transport error = record {
  code = error.code;
  message = error.message;
  correlation_id = some error.correlation_id;
}

unfoldable pub priority_literal : IssuePriorityDto → String
priority_literal IssuePriorityDto.low = "low"
priority_literal IssuePriorityDto.medium = "medium"
priority_literal IssuePriorityDto.high = "high"
priority_literal IssuePriorityDto.urgent = "urgent"
