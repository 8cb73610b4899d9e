-- ===== src/Store/Issue/Insert.antt =====
-- The checks and inserts of crates/dandori-store/src/repositories/issue.rs. An INSERT meets the
-- policy of the tenant, the CHECKs, the unique indexes and the foreign keys, in this order.
use dandori.Base.{
  String, Bool, true, not, ◌||◌, ◌&&◌, Option, none, some, ◌∷◌, ltb, ◌==◌, any, find, Result,
  Outcome, ok, fail_if, ok_or, map_err, ◌>>=◌, ◌>>◌,
}
use dandori.Base.Text.{char_length}
use dandori.Domain.Ids.{Uuid, Instant}
use dandori.Domain.Model.{Issue, open_}
use dandori.Domain.Event.{IssueCreatedEventV1, as_str, issue_created_v1}
use dandori.Domain.Command.{CreateIssueCommandV1}
use dandori.Store.Schema.{IssueRow, ActivityRow, OutboxRow, ProjectRow, MilestoneRow, Db, pending}
use dandori.Store.Error.{
  StoreError, sqlx, serde, unique_violation, check_violation, foreign_key_violation,
  row_security_violation, project_not_found, milestone_not_found, milestone_project_mismatch,
}
use dandori.Store.Issue.Rows.{map_issue_row}
use dandori.Store.Issue.Reservation.{breaks_length, workspace_exists}

abbrev pub is_project : Uuid → Uuid → ProjectRow → Bool
is_project workspace_id project_id p = p.workspace_id == workspace_id && p.id == project_id

abbrev pub is_milestone : Uuid → Uuid → MilestoneRow → Bool
is_milestone workspace_id milestone_id m = m.workspace_id == workspace_id && m.id == milestone_id

unfoldable pub issue_row : CreateIssueCommandV1 → Instant → IssueRow
issue_row c occurred_at = record {
  id = c.issue_id;
  workspace_id = c.workspace_id;
  project_id = c.project_id;
  milestone_id = c.milestone_id;
  title = c.title;
  description = c.description;
  state_category = open_;
  priority = c.priority;
  archived_at = none;
  row_version = 0;
  created_at = occurred_at;
  updated_at = occurred_at;
}

-- The CHECKs of the table `issue`.
unfoldable pub breaks_issue_checks : String → Option String → Bool
unfolding breaks_length
breaks_issue_checks title none = breaks_length 200 title
breaks_issue_checks title (some text) = breaks_length 200 title || ltb 4000 (char_length text)

module _ {J : Type 0} where
  unfoldable pub project_exists : Uuid → CreateIssueCommandV1 → Db J → Bool
  unfolding any
  project_exists tenant c db =
      c.workspace_id == tenant && any (is_project c.workspace_id c.project_id) db.projects

  unfoldable pub ensure_project_exists : Uuid → CreateIssueCommandV1 → Db J → Outcome StoreError
  unfolding project_exists
  ensure_project_exists tenant c db = fail_if (not (project_exists tenant c db)) project_not_found

  unfoldable pub ensure_milestone :
      Uuid → CreateIssueCommandV1 → Db J → Option Uuid → Outcome StoreError
  unfolding find
  ensure_milestone tenant c db none = ok tt
  ensure_milestone tenant c db (some milestone_id) = do
    row ←
        ok_or
          (find (λ m. m.workspace_id == tenant && is_milestone c.workspace_id milestone_id m)
            db.milestones)
          milestone_not_found
    fail_if (not (row.project_id == c.project_id)) milestone_project_mismatch

  unfoldable pub ensure_milestone_belongs_to_project :
      Uuid → CreateIssueCommandV1 → Db J → Outcome StoreError
  unfolding ensure_milestone
  ensure_milestone_belongs_to_project tenant c db = ensure_milestone tenant c db c.milestone_id

  unfoldable pub milestone_exists : Uuid → Option Uuid → Db J → Bool
  unfolding any
  milestone_exists workspace_id none db = true
  milestone_exists workspace_id (some id) db = any (is_milestone workspace_id id) db.milestones

  -- The foreign keys of the table `issue`.
  unfoldable pub issue_references : CreateIssueCommandV1 → Db J → Bool
  unfolding workspace_exists milestone_exists any
  issue_references c db =
      workspace_exists c.workspace_id db.workspaces
      && (any (is_project c.workspace_id c.project_id) db.projects
          && milestone_exists c.workspace_id c.milestone_id db)

  unfoldable pub insert_issue_returning :
      Uuid → CreateIssueCommandV1 → Instant → Db J → Result (Db J × Issue) StoreError
  unfolding issue_row breaks_issue_checks issue_references map_issue_row any
  insert_issue_returning tenant c occurred_at db = do
    fail_if (not (c.workspace_id == tenant)) (sqlx row_security_violation)
    fail_if (breaks_issue_checks c.title c.description) (sqlx check_violation)
    fail_if (any (λ i. i.id == c.issue_id) db.issues) (sqlx unique_violation)
    fail_if (not (issue_references c db)) (sqlx foreign_key_violation)
    let row = issue_row c occurred_at
    issue ← map_issue_row row
    ok (record db { issues = row ∷ db.issues }, issue)

  unfoldable pub activity_row : CreateIssueCommandV1 → Uuid → J → Instant → ActivityRow J
  unfolding as_str
  activity_row c activity_id payload occurred_at = record {
    id = activity_id;
    workspace_id = c.workspace_id;
    project_id = c.project_id;
    issue_id = some c.issue_id;
    command_id = c.command_id;
    actor_id = c.actor_id;
    event_type = as_str issue_created_v1;
    event_payload = payload;
    created_at = occurred_at;
  }

  -- The issue that the row names has just been inserted, and with it its references.
  unfoldable pub insert_activity :
      (IssueCreatedEventV1 → Result J String)
      → Uuid
      → CreateIssueCommandV1
      → IssueCreatedEventV1
      → Uuid
      → Instant
      → Db J
      → Result (Db J) StoreError
  unfolding activity_row any
  insert_activity event_value tenant c event activity_id occurred_at db = do
    payload ← map_err serde (event_value event)
    fail_if (not (c.workspace_id == tenant)) (sqlx row_security_violation)
    fail_if (any (λ a. a.id == activity_id) db.activities) (sqlx unique_violation)
    ok (record db { activities = activity_row c activity_id payload occurred_at ∷ db.activities })

  unfoldable pub outbox_row :
      CreateIssueCommandV1 → IssueCreatedEventV1 → Uuid → J → Instant → OutboxRow J
  unfolding as_str
  outbox_row c event outbox_id payload occurred_at = record {
    id = outbox_id;
    workspace_id = c.workspace_id;
    event_id = event.event_id;
    event_type = as_str issue_created_v1;
    aggregate_type = "issue";
    aggregate_id = c.issue_id;
    occurred_at = occurred_at;
    correlation_id = c.command_id;
    payload = payload;
    attempts = 0;
    available_at = occurred_at;
    status = pending;
    leased_at = none;
    leased_until = none;
    lease_token = none;
    lease_owner = none;
    published_at = none;
    last_error = none;
    created_at = occurred_at;
    updated_at = occurred_at;
  }

  unfoldable pub insert_outbox :
      (IssueCreatedEventV1 → Result J String)
      → Uuid
      → CreateIssueCommandV1
      → IssueCreatedEventV1
      → Uuid
      → Instant
      → Db J
      → Result (Db J) StoreError
  unfolding outbox_row any
  insert_outbox event_value tenant c event outbox_id occurred_at db = do
    payload ← map_err serde (event_value event)
    fail_if (not (c.workspace_id == tenant)) (sqlx row_security_violation)
    fail_if (any (λ o. o.id == outbox_id || o.event_id == event.event_id) db.outbox)
        (sqlx unique_violation)
    ok (record db { outbox = outbox_row c event outbox_id payload occurred_at ∷ db.outbox })
