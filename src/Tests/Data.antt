-- ===== src/Tests/Data.antt =====
-- The data of the tests.
use dandori.Base.{String, Bool, false, none, [], ◌∷◌, Result, ok, err}
use dandori.Domain.Ids.{Uuid, Instant}
use dandori.Domain.Model.{Issue, low}
use dandori.Domain.Auth.{AuthContext}
use dandori.Domain.Command.{CreateIssueCommandV1}
use dandori.Domain.Event.{IssueCreatedEventV1}
use dandori.Store.Schema.{Db, WorkspaceRow, WorkflowVersionRow, ProjectRow, OutboxRow, pending}
use dandori.Store.Issue.Reservation.{Serde}
use dandori.Store.Issue.Create.{Fresh}

pub data Json : Type 0 where
  event_json : IssueCreatedEventV1 → Json
  issue_json : Issue → Json
  reserving_json : Json

abbrev pub event_value : IssueCreatedEventV1 → Result Json String
event_value event = ok (event_json event)

abbrev pub response_value : Issue → Result Json String
response_value issue = ok (issue_json issue)

abbrev pub read_response : Json → Result Issue String
read_response (issue_json issue) = ok issue
read_response _ = err "no issue"

abbrev pub show_uuid : Uuid → String
show_uuid id = "uuid"

abbrev pub serde : Serde Json
serde = record {
  event_value = event_value;
  response_value = response_value;
  read_response = read_response;
  reserving = reserving_json;
  show_uuid = show_uuid;
}

abbrev pub worker : AuthContext
worker = record { workspace_id = 1; actor_id = 7 }

abbrev pub stranger : AuthContext
stranger = record { workspace_id = 2; actor_id = 8 }

abbrev pub command : CreateIssueCommandV1
command = record {
  command_id = 10;
  idempotency_key = record { raw = "k-1" };
  request_fingerprint = "v2:aa";
  issue_id = 20;
  workspace_id = 1;
  project_id = 3;
  milestone_id = none;
  title = "T";
  description = none;
  priority = low;
  actor_id = 7;
}

abbrev pub event : IssueCreatedEventV1
event = record {
  event_id = 30;
  issue_id = 20;
  workspace_id = 1;
  project_id = 3;
  milestone_id = none;
  actor_id = 7;
  occurred_at = 100;
  title = "T";
  description = none;
  priority = low;
}

abbrev pub fresh : Fresh
fresh = record { activity_id = 40; outbox_id = 50; now = 100 }

abbrev pub workspace_1 : WorkspaceRow
workspace_1 = record {
  id = 1;
  name = "W";
  shard_bucket = 1;
  row_version = 0;
  created_at = 1;
  updated_at = 1;
}

abbrev pub project_3 : ProjectRow
project_3 = record {
  id = 3;
  workspace_id = 1;
  name = "P";
  workflow_version_id = 5;
  row_version = 0;
  created_at = 1;
  updated_at = 1;
}

abbrev pub version_5 : WorkflowVersionRow
version_5 = record { id = 5; workspace_id = 1 }

abbrev pub tables : Db Json
tables = record {
  workspaces = workspace_1 ∷ [];
  workflow_versions = version_5 ∷ [];
  projects = project_3 ∷ [];
  milestones = [];
  issues = [];
  activities = [];
  outbox = [];
  idempotency = [];
  leases = [];
}

abbrev pub nothing_locked : Uuid → Bool
nothing_locked id = false

-- A message that waits since a time.
abbrev pub waiting : Uuid → Instant → OutboxRow Json
waiting id at = record {
  id = id;
  workspace_id = 1;
  event_id = 30;
  event_type = "issue.created.v1";
  aggregate_type = "issue";
  aggregate_id = 20;
  occurred_at = at;
  correlation_id = 10;
  payload = event_json event;
  attempts = 0;
  available_at = at;
  status = pending;
  leased_at = none;
  leased_until = none;
  lease_token = none;
  lease_owner = none;
  published_at = none;
  last_error = none;
  created_at = at;
  updated_at = at;
}
