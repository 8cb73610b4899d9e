-- ===== src/Store/Issue/Rows.antt =====
-- The texts of rows in crates/dandori-store/src/repositories/issue.rs: enums, fingerprints, and
-- the mapping of an issue's row.
use dandori.Base.{
  String, Bool, not, ◌||◌, ◌&&◌, Option, none, some, str_eq, if◌then◌else◌, Result, ok, err, ◌>>=◌,
}
use dandori.Base.Text.{append}
use text.Mathlib.Text.{starts_with}
use dandori.Domain.Ids.{Uuid}
use dandori.Domain.Model.{
  IssueStateCategory, open_, active, done, cancelled, IssuePriority, low, medium, high, urgent,
  Issue,
}
use dandori.Domain.Command.{CreateIssueCommandV1}
use dandori.Store.Schema.{IssueRow}
use dandori.Store.Error.{StoreError, invalid_state, invalid_priority}

-- `state_category::text`: the labels of the enum in migration_sql.rs
unfoldable pub state_text : IssueStateCategory → String
state_text open_ = "open"
state_text active = "active"
state_text done = "done"
state_text cancelled = "cancelled"

unfoldable pub priority_as_str : IssuePriority → String
priority_as_str low = "low"
priority_as_str medium = "medium"
priority_as_str high = "high"
priority_as_str urgent = "urgent"

unfoldable pub parse_state_category : String → Result IssueStateCategory StoreError
parse_state_category value =
    if str_eq value "open"
    then ok open_
    else if str_eq value "active"
    then ok active
    else if str_eq value "done"
    then ok done
    else if str_eq value "cancelled"
    then ok cancelled
    else err (invalid_state value)

unfoldable pub parse_priority : String → Result IssuePriority StoreError
parse_priority value =
    if str_eq value "low"
    then ok low
    else if str_eq value "medium"
    then ok medium
    else if str_eq value "high"
    then ok high
    else if str_eq value "urgent"
    then ok urgent
    else err (invalid_priority value)

-- The row arrives with its enums as texts.
unfoldable pub map_issue_row : IssueRow → Result Issue StoreError
unfolding state_text priority_as_str parse_state_category parse_priority
map_issue_row row = do
  state_category ← parse_state_category (state_text row.state_category)
  priority ← parse_priority (priority_as_str row.priority)
  ok (record {
    id = row.id;
    workspace_id = row.workspace_id;
    project_id = row.project_id;
    milestone_id = row.milestone_id;
    title = row.title;
    description = row.description;
    state_category = state_category;
    priority = priority;
    archived_at = row.archived_at;
    row_version = row.row_version;
    created_at = row.created_at;
    updated_at = row.updated_at;
  })

abbrev or_null : (Uuid → String) → Option Uuid → String
or_null show none = "null"
or_null show (some id) = show id

abbrev or_default : Option String → String
or_default none = ""
or_default (some text) = text

-- `show` is the UUID's `Display`.
unfoldable pub legacy_v1_fingerprint : (Uuid → String) → CreateIssueCommandV1 → String
unfolding priority_as_str
legacy_v1_fingerprint show c = append "project_id=" (
    append (show c.project_id) (
      append "|milestone_id=" (
        append (or_null show c.milestone_id) (
          append "|title=" (
            append c.title (
              append "|description=" (
                append (or_default c.description)
                  (append "|priority=" (priority_as_str c.priority)))))))))

unfoldable pub matches_request_fingerprint : (Uuid → String) → String → CreateIssueCommandV1 → Bool
unfolding legacy_v1_fingerprint
matches_request_fingerprint show existing c =
    str_eq existing c.request_fingerprint
    || not (starts_with existing "v2:") && str_eq existing (legacy_v1_fingerprint show c)
