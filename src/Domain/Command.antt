-- ===== src/Domain/Command.antt =====
-- crates/dandori-domain/src/command.rs
use dandori.Base.{
  ℕ, String, Bool, false, Option, none, some, ltb, str_eq, if◌then◌else◌, Outcome, ok, fail_if,
  ◌>>◌,
}
use dandori.Base.Text.{byte_length, is_empty, trim, append}
use dandori.Domain.Error.{DomainError, validation_error, conflict, precondition, detail}
use dandori.Domain.Ids.{
  Uuid, CommandId, WorkspaceId, ProjectId, MilestoneId, IssueId, IdempotencyKey,
}
use dandori.Domain.Model.{IssuePriority}

abbrev pub max_name_length : ℕ
max_name_length = 200

abbrev pub max_idempotency_key_length : ℕ
max_idempotency_key_length = 128

abbrev pub max_request_fingerprint_length : ℕ
max_request_fingerprint_length = 128

abbrev pub max_issue_description_length : ℕ
max_issue_description_length = 4000

pub data CommandName : Type 0 where
  issue_create_v1 workspace_create_v1 project_create_v1 : CommandName

unfoldable pub as_str : CommandName → String
as_str issue_create_v1 = "issue.create.v1"
as_str workspace_create_v1 = "workspace.create.v1"
as_str project_create_v1 = "project.create.v1"

unfoldable pub parse : String → Option CommandName
parse value =
    if str_eq value "issue.create.v1"
    then some issue_create_v1
    else if str_eq value "workspace.create.v1"
    then some workspace_create_v1
    else if str_eq value "project.create.v1"
    then some project_create_v1
    else none

abbrev pub is_blank : String → Bool
is_blank s = is_empty (trim s)

pub record CreateWorkspaceCommandV1 : Type 0 where
  pub command_id : CommandId
  pub workspace_id : WorkspaceId
  pub name : String
  pub actor_id : Uuid

unfoldable pub validate_workspace : CreateWorkspaceCommandV1 → Outcome DomainError
validate_workspace c = do
  fail_if (is_blank c.name)
      (validation_error "workspace_name_required" "workspace name must not be empty")
  fail_if (ltb max_name_length (byte_length c.name))
      (validation_error "workspace_name_too_long" "workspace name exceeds 200 characters")
  ok tt

pub record CreateProjectCommandV1 : Type 0 where
  pub command_id : CommandId
  pub workspace_id : WorkspaceId
  pub project_id : ProjectId
  pub workflow_version_id : Uuid
  pub name : String
  pub actor_id : Uuid

unfoldable pub validate_project : CreateProjectCommandV1 → Outcome DomainError
validate_project c = do
  fail_if (is_blank c.name)
      (validation_error "project_name_required" "project name must not be empty")
  fail_if (ltb max_name_length (byte_length c.name))
      (validation_error "project_name_too_long" "project name exceeds 200 characters")
  ok tt

pub record CreateIssueCommandV1 : Type 0 where
  pub command_id : CommandId
  pub idempotency_key : IdempotencyKey
  pub request_fingerprint : String
  pub issue_id : IssueId
  pub workspace_id : WorkspaceId
  pub project_id : ProjectId
  pub milestone_id : Option MilestoneId
  pub title : String
  pub description : Option String
  pub priority : IssuePriority
  pub actor_id : Uuid

abbrev pub description_too_long : Option String → Bool
description_too_long none = false
description_too_long (some text) = ltb max_issue_description_length (byte_length text)

unfoldable pub validate_issue : CreateIssueCommandV1 → Outcome DomainError
validate_issue c = do
  fail_if (is_blank c.title) (validation_error "title_required" "issue title must not be empty")
  fail_if (ltb max_name_length (byte_length c.title))
      (validation_error "title_too_long" "issue title exceeds 200 characters")
  fail_if (is_blank c.idempotency_key.raw)
      (validation_error "idempotency_key_required" "idempotency key must not be empty")
  fail_if (ltb max_idempotency_key_length (byte_length c.idempotency_key.raw))
      (validation_error "idempotency_key_too_long" "idempotency key exceeds 128 characters")
  fail_if (is_blank c.request_fingerprint)
      (validation_error "request_fingerprint_required" "request fingerprint must not be empty")
  fail_if (ltb max_request_fingerprint_length (byte_length c.request_fingerprint))
      (validation_error "request_fingerprint_too_long" "request fingerprint exceeds 128 characters")
  fail_if (description_too_long c.description)
      (validation_error "description_too_long" "issue description exceeds 4000 characters")
  ok tt

unfoldable pub map_duplicate_conflict : CreateIssueCommandV1 → DomainError
map_duplicate_conflict c = conflict (
    detail "duplicate_issue_command" (
      append "issue command with idempotency key '"
        (append c.idempotency_key.raw "' already exists with a different payload")))

-- `show` is the UUID's `Display`.
unfoldable pub map_missing_project_precondition :
    (Uuid → String) → CreateIssueCommandV1 → DomainError
map_missing_project_precondition show c = precondition (
    detail "project_not_found"
      (append "project '" (append (show c.project_id) "' not found in workspace")))

pub data IssueCommandV1 : Type 0 where
  create_issue : CreateIssueCommandV1 → IssueCommandV1

pub data WorkspaceCommandV1 : Type 0 where
  create_workspace : CreateWorkspaceCommandV1 → WorkspaceCommandV1

pub data ProjectCommandV1 : Type 0 where
  create_project : CreateProjectCommandV1 → ProjectCommandV1

unfoldable pub issue_command : IssueCommandV1 → CommandName
issue_command (create_issue command) = issue_create_v1

unfoldable pub workspace_command : WorkspaceCommandV1 → CommandName
workspace_command (create_workspace command) = workspace_create_v1

unfoldable pub project_command : ProjectCommandV1 → CommandName
project_command (create_project command) = project_create_v1

-- `command_name()` of the three.
unfoldable pub issue_command_name : IssueCommandV1 → String
unfolding issue_command as_str
issue_command_name command = as_str (issue_command command)

unfoldable pub workspace_command_name : WorkspaceCommandV1 → String
unfolding workspace_command as_str
workspace_command_name command = as_str (workspace_command command)

unfoldable pub project_command_name : ProjectCommandV1 → String
unfolding project_command as_str
project_command_name command = as_str (project_command command)
