-- ===== src/Tests/Issues.antt =====
-- Creating and reading an issue.
use dandori.Base.{◌≡◌, ◌≢◌, ◌↔◌, refl, true, false, some, [], ok, err, str_eq, arith}
use text.Mathlib.Text.{starts_with}
use dandori.Base.Text.{byte_length, char_length, trim}
use dandori.Domain.Ids.{Uuid}
use dandori.Domain.Command.{CreateIssueCommandV1, validate_issue}
use dandori.Domain.Auth.{AuthContext}
use dandori.Store.Schema.{Db}
use dandori.Store.Error.{idempotency_conflict}
use dandori.Store.Issue.Reservation.{CreateIssueWriteResult, breaks_length}
use dandori.Store.Issue.Insert.{breaks_issue_checks}
use dandori.Store.Issue.Create.{create_issue_transactional, get_issue}
use dandori.Store.Issue.Create.Writes.{Creates, with_issue, new_issue, create-eq-created}
use dandori.Store.Issue.Create.Retry.{ReadsBack, create-retried}
use dandori.Store.Issue.Create.Reads.{get_issue-created}
use dandori.Store.Issue.Create.Checks.{validate_issue-passes_checks}
use dandori.Tests.Data.{Json, event_json, issue_json, serde, worker, command, event, fresh, tables}

abbrev pub after : Db Json
after =
    with_issue serde worker command event fresh tables (event_json event)
      (issue_json (new_issue serde worker command event fresh))

abbrev pub result : CreateIssueWriteResult
result = record { issue = new_issue serde worker command event fresh; idempotent_replay = false }

pub commits :
    create_issue_transactional serde worker command event fresh tables ≡ ok (after, result)
unfolding create_issue_transactional char_length
commits = refl

pub reads_back : ReadsBack serde
reads_back issue v h = ground arith

create-eq-created_example :
    ((create_issue_transactional serde worker command event fresh tables ≡ ok (after, result))
      × (result.idempotent_replay ≡ false))
    ↔ Creates serde worker command event fresh tables after result
create-eq-created_example = create-eq-created serde worker command event fresh tables after result

abbrev other_request : CreateIssueCommandV1
other_request = record command { command_id = 11; issue_id = 21; request_fingerprint = "v2:bb" }

abbrev later : Db Json
later = record after { outbox = [] }

short : breaks_length 128 "v2:bb" ≡ false
unfolding breaks_length char_length
short = refl

create-retried_example :
    (other_request.request_fingerprint ≡ command.request_fingerprint
      → create_issue_transactional serde worker other_request event fresh later
        ≡ ok (later, record { issue = result.issue; idempotent_replay = true }))
    × (str_eq "v2:aa" "v2:bb" ≡ false
        → starts_with "v2:aa" "v2:" ≡ true
        → create_issue_transactional serde worker other_request event fresh later
          ≡ err idempotency_conflict)
create-retried_example =
    create-retried serde worker command event fresh tables after result commits refl other_request
      (refl, refl) event fresh later refl reads_back short

get_issue-created_example :
    (get_issue worker command.issue_id after ≡ ok (some result.issue))
    × ((other : AuthContext) (id : Uuid)
        → other.workspace_id ≢ worker.workspace_id
        → get_issue other id after ≡ get_issue other id tables)
get_issue-created_example =
    get_issue-created serde worker command event fresh tables after result commits refl

valid : validate_issue command ≡ ok tt
unfolding validate_issue trim byte_length
valid = refl

validate_issue-passes_checks_example :
    (breaks_issue_checks command.title command.description ≡ false)
    × (breaks_length 128 command.idempotency_key.raw ≡ false)
    × (breaks_length 128 command.request_fingerprint ≡ false)
validate_issue-passes_checks_example = validate_issue-passes_checks command valid
