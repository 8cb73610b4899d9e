-- ===== src/App/Service.antt =====
-- `IssueAppService` of crates/dandori-app-services/src/service.rs
pub mod Errors
pub mod Retry
use dandori.Base.{
  ℕ, String, Option, none, some, List, [], ◌∷◌, Result, Outcome, ok, err, map_err, ok_or, ◌>>=◌,
  ◌>>◌,
}
use dandori.Base.Text.{append}
use dandori.Domain.Error.{DomainError, ErrorDetail}
use dandori.Domain.Error
use dandori.Domain.Ids.{Uuid, Instant, new_key}
use dandori.Domain.Model.{Issue}
use dandori.Domain.Event.{IssueCreatedEventV1}
use dandori.Domain.Command.{
  CreateIssueCommandV1, validate_issue, map_duplicate_conflict, map_missing_project_precondition,
}
use dandori.Domain.Auth.{AuthContext, enforce_workspace}
use dandori.Store.Schema.{Db}
use dandori.Store.Error.{StoreError}
use dandori.Store.Issue.Reservation.{Serde}
use dandori.Store.Issue.Create.{Fresh, create_issue_transactional, get_issue}
use dandori.Policy.{
  Role, owner, member, Action, issue_create, issue_read, Resource, Subject, DenyReason, into_result,
  code, message, Evaluate,
}
use dandori.App.Error.{AppServiceError, ErrorKind, internal}
use dandori.App.Contract.{
  IssuePriorityDto, CreateIssueRequest, CreateIssueResponse, GetIssueResponse,
  map_priority_from_dto, map_issue_to_dto, priority_literal,
}

-- The payload whose JSON is hashed.
pub record FingerprintPayload : Type 0 where
  pub schema : String
  pub project_id : Uuid
  pub milestone_id : Option Uuid
  pub title : String
  pub description : Option String
  pub priority : String

-- The fresh ids and the clock of a request; `correlation` is the id of its error, if it has one.
pub record RequestIds : Type 0 where
  pub correlation : Uuid
  pub command_id : Uuid
  pub issue_id : Uuid
  pub event_id : Uuid
  pub occurred_at : Instant
  pub fresh : Fresh

-- What the service is given: the policy, the JSON of the store, and the SHA-256 of a payload's JSON
-- in hexadecimal digits, which serde_json may refuse.
pub record Services (J : Type 0) : Type 0 where
  pub policy : Evaluate
  pub json : Serde J
  pub sha256_hex : FingerprintPayload → Result String String

abbrev pub app_error : ErrorKind → Uuid → String → String → AppServiceError
app_error kind correlation error_code text = record {
  code = error_code;
  message = text;
  kind = kind;
  correlation_id = correlation;
}

unfoldable pub map_domain_error : Uuid → DomainError → AppServiceError
map_domain_error correlation (DomainError.validation d) =
    app_error ErrorKind.validation correlation d.code d.message
map_domain_error correlation (DomainError.precondition d) =
    app_error ErrorKind.precondition correlation d.code d.message
map_domain_error correlation (DomainError.conflict d) =
    app_error ErrorKind.conflict correlation d.code d.message
map_domain_error correlation (DomainError.authz d) =
    app_error ErrorKind.authz correlation d.code d.message
map_domain_error correlation (DomainError.tenant_boundary d) =
    app_error ErrorKind.tenant_boundary correlation d.code d.message
map_domain_error correlation (DomainError.infrastructure d) = internal d.code correlation

unfoldable pub map_store_error :
    (Uuid → String) → Uuid → CreateIssueCommandV1 → StoreError → AppServiceError
unfolding map_domain_error map_missing_project_precondition map_duplicate_conflict
map_store_error show correlation c StoreError.project_not_found =
    map_domain_error correlation (map_missing_project_precondition show c)
map_store_error show correlation c StoreError.milestone_not_found =
    app_error ErrorKind.precondition correlation "milestone_not_found"
      "milestone not found in workspace"
map_store_error show correlation c StoreError.milestone_project_mismatch =
    app_error ErrorKind.precondition correlation "milestone_project_mismatch"
      "milestone does not belong to the requested project"
map_store_error show correlation c StoreError.idempotency_conflict =
    map_domain_error correlation (map_duplicate_conflict c)
map_store_error show correlation c (StoreError.domain error) = map_domain_error correlation error
map_store_error show correlation c _ = internal "store_write_failed" correlation

unfoldable pub map_store_error_read : Uuid → StoreError → AppServiceError
unfolding map_domain_error
map_store_error_read correlation (StoreError.domain error) = map_domain_error correlation error
map_store_error_read correlation _ = internal "store_read_failed" correlation

abbrev pub subject_from_auth : AuthContext → Subject
subject_from_auth auth = record {
  actor_id = auth.actor_id;
  workspace_id = auth.workspace_id;
  roles = owner ∷ member ∷ [];
}

abbrev pub denied : Uuid → DenyReason → AppServiceError
denied correlation reason = app_error ErrorKind.authz correlation (code reason) (message reason)

unfoldable pub enforce_policy :
    Evaluate → Uuid → AuthContext → Action → Resource → Outcome AppServiceError
enforce_policy policy correlation auth action resource =
    map_err (denied correlation)
      (into_result (policy (some (subject_from_auth auth)) action resource))

abbrev pub with_version : Result String String → Uuid → Result String AppServiceError
with_version (ok digest) correlation = ok (append "v2:" digest)
with_version (err message) correlation = err (internal "fingerprint_serialize_failed" correlation)

unfoldable pub create_issue_fingerprint :
    (FingerprintPayload → Result String String)
    → Uuid
    → CreateIssueRequest
    → Result String AppServiceError
unfolding priority_literal
create_issue_fingerprint sha256_hex correlation request =
    with_version
      (sha256_hex (record {
        schema = "issue.create.fingerprint.v2";
        project_id = request.project_id;
        milestone_id = request.milestone_id;
        title = request.title;
        description = request.description;
        priority = priority_literal request.priority;
      }))
      correlation

unfoldable pub command_of :
    AuthContext → CreateIssueRequest → RequestIds → String → String → CreateIssueCommandV1
command_of auth request ids key fingerprint = record {
  command_id = ids.command_id;
  idempotency_key = record { raw = key };
  request_fingerprint = fingerprint;
  issue_id = ids.issue_id;
  workspace_id = auth.workspace_id;
  project_id = request.project_id;
  milestone_id = request.milestone_id;
  title = request.title;
  description = request.description;
  priority = map_priority_from_dto request.priority;
  actor_id = auth.actor_id;
}

unfoldable pub event_of : CreateIssueCommandV1 → RequestIds → IssueCreatedEventV1
event_of c ids = record {
  event_id = ids.event_id;
  issue_id = c.issue_id;
  workspace_id = c.workspace_id;
  project_id = c.project_id;
  milestone_id = c.milestone_id;
  actor_id = c.actor_id;
  occurred_at = ids.occurred_at;
  title = c.title;
  description = c.description;
  priority = c.priority;
}

module _ {J : Type 0} (services : Services J) (auth : AuthContext) where
  open services use {policy, json, sha256_hex}

  unfoldable pub create_issue :
      CreateIssueRequest → RequestIds → Db J → Result (Db J × CreateIssueResponse) AppServiceError
  unfolding enforce_policy create_issue_fingerprint new_key command_of validate_issue
      enforce_workspace event_of create_issue_transactional map_domain_error map_store_error
      map_issue_to_dto
  create_issue request ids db = do
    enforce_policy policy ids.correlation auth issue_create (Resource.workspace auth.workspace_id)
    fingerprint ← create_issue_fingerprint sha256_hex ids.correlation request
    key ← map_err (map_domain_error ids.correlation) (new_key request.idempotency_key)
    let command = command_of auth request ids key.raw fingerprint
    map_err (map_domain_error ids.correlation) (validate_issue command)
    map_err (map_domain_error ids.correlation) (enforce_workspace auth command.workspace_id)
    written ←
        map_err (map_store_error json.show_uuid ids.correlation command)
          (create_issue_transactional json auth command (event_of command ids) ids.fresh db)
    ok (
      written.0,
      record {
        issue = map_issue_to_dto written.1.issue;
        idempotent_replay = written.1.idempotent_replay;
      },
    )

  abbrev pub not_found : Uuid → Uuid → AppServiceError
  not_found correlation issue_id =
      app_error ErrorKind.not_found correlation "issue_not_found"
        (append "issue '" (append (json.show_uuid issue_id) "' was not found"))

  unfoldable pub get_issue_by_id : Uuid → Uuid → Db J → Result GetIssueResponse AppServiceError
  unfolding enforce_policy get_issue map_store_error_read map_issue_to_dto
  get_issue_by_id correlation issue_id db = do
    enforce_policy policy correlation auth issue_read (Resource.issue auth.workspace_id issue_id)
    found ← map_err (map_store_error_read correlation) (get_issue auth issue_id db)
    issue ← ok_or found (not_found correlation issue_id)
    ok (record { issue = map_issue_to_dto issue })
