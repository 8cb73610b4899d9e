-- ===== src/Store/Issue/Create.antt =====
-- `create_issue_transactional` and `get_issue` of crates/dandori-store/src/repositories/issue.rs.
-- A transaction returns the tables that it commits; an error stands for a rollback.
pub mod Writes
pub mod Idempotency
pub mod Retry
pub mod Reads
pub mod Checks
use dandori.Base.{
  ℕ, ◌+◌, Bool, true, false, ◌&&◌, Option, none, some, ◌==◌, find, Result, Outcome, ok, err,
  map_err, ◌>>=◌, ◌>>◌, if◌then◌else◌,
}
use dandori.Domain.Ids.{Uuid, Instant}
use dandori.Domain.Model.{Issue}
use dandori.Domain.Event.{IssueCreatedEventV1}
use dandori.Domain.Command.{CreateIssueCommandV1}
use dandori.Domain.Auth.{AuthContext}
use dandori.Store.Schema.{IssueRow, Db}
use dandori.Store.Error.{StoreError, serde}
use dandori.Store.Issue.Rows.{map_issue_row}
use dandori.Store.Issue.Reservation.{
  Serde, CreateIssueWriteResult, IdempotencyReservation, seven_days, reserve_idempotency,
  branch_on_stored_fingerprint, update_idempotency_payload,
}
use dandori.Store.Issue.Insert.{
  ensure_project_exists, ensure_milestone_belongs_to_project, insert_issue_returning,
  insert_activity, insert_outbox,
}

-- The identifiers that `Uuid::now_v7()` gives, and the clock.
pub record Fresh : Type 0 where
  pub activity_id : Uuid
  pub outbox_id : Uuid
  pub now : Instant

module _ {J : Type 0} (s : Serde J) where
  -- What the transaction does once it has won the reservation.
  unfoldable pub write_issue :
      Uuid
      → CreateIssueCommandV1
      → IssueCreatedEventV1
      → Fresh
      → Db J
      → Result (Db J × CreateIssueWriteResult) StoreError
  unfolding ensure_project_exists ensure_milestone_belongs_to_project insert_issue_returning
      insert_activity insert_outbox update_idempotency_payload
  write_issue tenant c event fresh db = do
    ensure_project_exists tenant c db
    ensure_milestone_belongs_to_project tenant c db
    inserted ← insert_issue_returning tenant c event.occurred_at db
    with_activity ←
        insert_activity s.event_value tenant c event fresh.activity_id event.occurred_at inserted.0
    with_outbox ←
        insert_outbox s.event_value tenant c event fresh.outbox_id event.occurred_at with_activity
    final_payload ← map_err serde (s.response_value inserted.1)
    ok (
      update_idempotency_payload tenant c final_payload with_outbox,
      record { issue = inserted.1; idempotent_replay = false },
    )

  unfoldable pub create_issue_transactional :
      AuthContext
      → CreateIssueCommandV1
      → IssueCreatedEventV1
      → Fresh
      → Db J
      → Result (Db J × CreateIssueWriteResult) StoreError
  unfolding write_issue reserve_idempotency branch_on_stored_fingerprint
  create_issue_transactional auth c event fresh db = do
    reserved ←
        reserve_idempotency auth.workspace_id c s.reserving fresh.now (fresh.now + seven_days) db
    elim reserved.1.inserted [
      | true ↦ write_issue auth.workspace_id c event fresh reserved.0
      | false ↦ do result ← branch_on_stored_fingerprint s c reserved.1; ok (reserved.0, result)
    ]

unfoldable pub transpose : Option (Result Issue StoreError) → Result (Option Issue) StoreError
transpose none = ok none
transpose (some (ok issue)) = ok (some issue)
transpose (some (err e)) = err e

unfoldable pub map_found : Option IssueRow → Option (Result Issue StoreError)
unfolding map_issue_row
map_found none = none
map_found (some row) = some (map_issue_row row)

module _ {J : Type 0} where
  -- `WHERE id = $1`, of the rows that the policy of the tenant shows.
  unfoldable pub get_issue : AuthContext → Uuid → Db J → Result (Option Issue) StoreError
  unfolding transpose map_found find
  get_issue auth issue_id db =
      transpose
        (map_found (find (λ i. i.workspace_id == auth.workspace_id && i.id == issue_id) db.issues))
