-- ===== src/Store/Issue/Create/Idempotency.antt =====
-- What a retry of a create gets, and what a commit writes.
use dandori.Base.{◌≡◌, refl, ok}
use dandori.Domain.Model.{
  Issue, IssueStateCategory, open_, active, done, cancelled, IssuePriority, low, medium, high,
  urgent,
}
use dandori.Store.Schema.{IssueRow}
use dandori.Store.Issue.Rows.{
  map_issue_row, state_text, priority_as_str, parse_state_category, parse_priority,
}

-- The issue that a row stands for.
abbrev pub issue_of : IssueRow → Issue
issue_of row = record {
  id = row.id;
  workspace_id = row.workspace_id;
  project_id = row.project_id;
  milestone_id = row.milestone_id;
  title = row.title;
  description = row.description;
  state_category = row.state_category;
  priority = row.priority;
  archived_at = row.archived_at;
  row_version = row.row_version;
  created_at = row.created_at;
  updated_at = row.updated_at;
}

parse_state_category-state_text :
    (x : IssueStateCategory) → parse_state_category (state_text x) ≡ ok x
unfolding parse_state_category state_text
parse_state_category-state_text open_ = refl
parse_state_category-state_text active = refl
parse_state_category-state_text done = refl
parse_state_category-state_text cancelled = refl

parse_priority-priority_as_str : (x : IssuePriority) → parse_priority (priority_as_str x) ≡ ok x
unfolding parse_priority priority_as_str
parse_priority-priority_as_str low = refl
parse_priority-priority_as_str medium = refl
parse_priority-priority_as_str high = refl
parse_priority-priority_as_str urgent = refl

-- Every row is mapped: the texts of its enums are read back.
pub map_issue_row_total : (row : IssueRow) → map_issue_row row ≡ ok (issue_of row)
unfolding map_issue_row
map_issue_row_total row =
    rw
      (
        parse_state_category-state_text row.state_category,
        parse_priority-priority_as_str row.priority,
      )
      refl
