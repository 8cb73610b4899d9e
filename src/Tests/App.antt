-- ===== src/Tests/App.antt =====
-- The policy, the domain's checks and the service.
use dandori.Base.{
  ◌≡◌, ◌↔◌, refl, true, false, none, some, [], ◌∷◌, ok, err, String, any, is_ok, Result,
}
use dandori.Base.Text.{byte_length, all_chars, char_length, is_empty, trim}
use dandori.Domain.Ids.{IdempotencyKey}
use dandori.Policy.{viewer, issue_read, Resource, workspace_of, Subject, allow}
use dandori.Policy.Matrix.{standard, evaluate}
use dandori.Policy.Laws.{may, evaluate-standard-eq-allow}
use dandori.App.Error.{internal_message}
use dandori.App.Contract.{
  CreateIssueRequest, CreateIssueResponse, IssuePriorityDto, ErrorEnvelope, map_issue_to_dto,
}
use dandori.App.Service.{Services, RequestIds, FingerprintPayload, create_issue, get_issue_by_id}
use dandori.App.Service.Errors.{FailsSanitised, service-FailsSanitised}
use dandori.App.Service.Retry.{create_issue-sent_again}
use dandori.App.Adapters.{McpJson, map_data, handle_rest_create_issue, handle_mcp_create_issue}
use dandori.App.Adapters.Laws.{create-transports}
use dandori.Tests.Data.{Json, reserving_json, serde, worker, fresh, tables}
use dandori.Tests.Issues.{after, result, reads_back}

abbrev key : IdempotencyKey
key = record { raw = "k-1" }

abbrev reader : Subject
reader = record { actor_id = 7; workspace_id = 1; roles = viewer ∷ [] }

evaluate-standard-eq-allow_example :
    (evaluate standard (some reader) issue_read (Resource.issue 1 20) ≡ allow) ↔ (
      (s : Subject) × (some reader ≡ some s)
      × (s.workspace_id ≡ workspace_of (Resource.issue 1 20))
      × (any (may issue_read) s.roles ≡ true))
evaluate-standard-eq-allow_example =
    evaluate-standard-eq-allow (some reader) issue_read (Resource.issue 1 20)

abbrev pub sha256_hex : FingerprintPayload → Result String String
sha256_hex payload = ok "aa"

abbrev pub services : Services Json
services = record { policy = evaluate standard; json = serde; sha256_hex = sha256_hex }

abbrev pub request : CreateIssueRequest
request = record {
  idempotency_key = "k-1";
  project_id = 3;
  milestone_id = none;
  title = "T";
  description = none;
  priority = IssuePriorityDto.low;
}

abbrev pub ids : RequestIds
ids = record {
  correlation = 90;
  command_id = 10;
  issue_id = 20;
  event_id = 30;
  occurred_at = 100;
  fresh = fresh;
}

abbrev later_ids : RequestIds
later_ids = record {
  correlation = 91;
  command_id = 11;
  issue_id = 21;
  event_id = 31;
  occurred_at = 500;
  fresh = record { activity_id = 41; outbox_id = 51; now = 500 };
}

abbrev pub created : CreateIssueResponse
created = record { issue = map_issue_to_dto result.issue; idempotent_replay = false }

succeeds : create_issue services worker request ids tables ≡ ok (after, created)
unfolding create_issue char_length byte_length evaluate standard all_chars is_empty trim
succeeds = refl

create_issue-sent_again_example :
    create_issue services worker request later_ids after
    ≡ ok (after, record { issue = created.issue; idempotent_replay = true })
create_issue-sent_again_example =
    create_issue-sent_again services worker request ids later_ids tables after created reads_back
      succeeds refl

service-FailsSanitised_example :
    FailsSanitised (create_issue services worker request ids tables)
    × FailsSanitised (get_issue_by_id services worker 90 20 tables)
service-FailsSanitised_example = service-FailsSanitised services worker request ids 90 20 tables

abbrev pub mcp : McpJson Json
mcp = record {
  read_request = λ params. ok request;
  issue_id_text = λ params. none;
  parse_uuid = λ text. ok 20;
  created_value = λ response. reserving_json;
  found_value = λ response. reserving_json;
}

create-transports_example :
    let (settled, status, envelope) = handle_rest_create_issue services worker request ids tables in
    ((status ≡ 201) ↔ (is_ok envelope ≡ true))
    × ((error : ErrorEnvelope)
        → envelope ≡ err error
        → (settled ≡ tables) × (status ≡ 500 → error.message ≡ internal_message))
    × (handle_mcp_create_issue services worker mcp reserving_json ids tables
        ≡ (settled, map_data mcp.created_value envelope))
create-transports_example =
    create-transports services worker mcp reserving_json request ids tables refl
