-- ===== src/Store/Issue/Reservation.antt =====
-- The idempotency record of crates/dandori-store/src/repositories/issue.rs
use dandori.Base.{
  ℕ, String, Bool, true, false, not, ◌||◌, ◌&&◌, none, some, List, ◌∷◌, ltb, ◌==◌, str_eq, any,
  find, if◌then◌else◌, Result, ok, err, fail_if, ◌>>◌,
}
use dandori.Base.Text.{char_length}
use dandori.Domain.Ids.{Uuid, Instant}
use dandori.Domain.Model.{Issue}
use dandori.Domain.Event.{IssueCreatedEventV1}
use dandori.Domain.Command.{CreateIssueCommandV1, as_str, issue_create_v1}
use dandori.Store.Schema.{IdempotencyRow, WorkspaceRow, Db}
use dandori.Store.Table.{update_where}
use dandori.Store.Error.{
  StoreError, sqlx, serde, check_violation, foreign_key_violation, row_security_violation,
  idempotency_conflict,
}
use dandori.Store.Issue.Rows.{matches_request_fingerprint}

-- What serde_json and uuid do: the values of the event and of the stored response, reading a
-- stored response back, the placeholder of a reservation, and the text of a UUID.
pub record Serde (J : Type 0) : Type 0 where
  pub event_value : IssueCreatedEventV1 → Result J String
  pub response_value : Issue → Result J String
  pub read_response : J → Result Issue String
  pub reserving : J
  pub show_uuid : Uuid → String

pub record CreateIssueWriteResult : Type 0 where
  pub issue : Issue
  pub idempotent_replay : Bool

pub record IdempotencyReservation (J : Type 0) : Type 0 where
  pub inserted : Bool
  pub stored_fingerprint : String
  pub stored_payload : J

-- `CHECK (char_length(…) BETWEEN 1 AND most)`
unfoldable pub breaks_length : ℕ → String → Bool
breaks_length most s = ltb (char_length s) 1 || ltb most (char_length s)

-- `Duration::days(7)` in microseconds.
abbrev pub seven_days : ℕ
seven_days = 604800000000

-- `REFERENCES workspace(id)`
unfoldable pub workspace_exists : Uuid → List WorkspaceRow → Bool
unfolding any
workspace_exists id rows = any (λ w. w.id == id) rows

-- A stored response that cannot be read is a serialization error.
abbrev pub replayed : Result Issue String → Result CreateIssueWriteResult StoreError
replayed (ok issue) = ok (record { issue = issue; idempotent_replay = true })
replayed (err message) = err (serde message)

module _ {J : Type 0} where
  -- `(workspace_id, command_name, idempotency_key)`, the primary key.
  unfoldable pub is_reserved_for : CreateIssueCommandV1 → IdempotencyRow J → Bool
  unfolding as_str
  is_reserved_for c r =
      r.workspace_id == c.workspace_id
      && (str_eq r.command_name (as_str issue_create_v1)
          && str_eq r.idempotency_key c.idempotency_key.raw)

  unfoldable pub reservation_row : CreateIssueCommandV1 → J → Instant → Instant → IdempotencyRow J
  unfolding as_str
  reservation_row c payload now expires_at = record {
    workspace_id = c.workspace_id;
    command_name = as_str issue_create_v1;
    idempotency_key = c.idempotency_key.raw;
    request_fingerprint = c.request_fingerprint;
    response_payload = payload;
    expires_at = expires_at;
    created_at = now;
  }

  abbrev pub reservation_of : IdempotencyRow J → Bool → IdempotencyReservation J
  reservation_of r inserted = record {
    inserted = inserted;
    stored_fingerprint = r.request_fingerprint;
    stored_payload = r.response_payload;
  }

  -- INSERT … ON CONFLICT … RETURNING (xmax = 0), …: the policy and the CHECKs, then the conflict,
  -- whose update changes nothing, or the new row with its foreign key. `tenant` is the workspace of
  -- the transaction.
  unfoldable pub reserve_idempotency :
      Uuid
      → CreateIssueCommandV1
      → J
      → Instant
      → Instant
      → Db J
      → Result (Db J × IdempotencyReservation J) StoreError
  unfolding is_reserved_for reservation_row breaks_length workspace_exists find
  reserve_idempotency tenant c payload now expires_at db = do
    fail_if (not (c.workspace_id == tenant)) (sqlx row_security_violation)
    fail_if (breaks_length 128 c.idempotency_key.raw || breaks_length 128 c.request_fingerprint)
        (sqlx check_violation)
    let row = reservation_row c payload now expires_at
    elim (find (is_reserved_for c) db.idempotency) [
      | some r ↦ ok (db, reservation_of r false)
      | none ↦
          if workspace_exists c.workspace_id db.workspaces
          then ok (record db { idempotency = row ∷ db.idempotency }, reservation_of row true)
          else err (sqlx foreign_key_violation)
    ]

  unfoldable pub branch_on_stored_fingerprint :
      Serde J
      → CreateIssueCommandV1
      → IdempotencyReservation J
      → Result CreateIssueWriteResult StoreError
  unfolding matches_request_fingerprint
  branch_on_stored_fingerprint s c reservation = do
    fail_if (not (matches_request_fingerprint s.show_uuid reservation.stored_fingerprint c))
        idempotency_conflict
    replayed (s.read_response reservation.stored_payload)

  unfoldable pub update_idempotency_payload : Uuid → CreateIssueCommandV1 → J → Db J → Db J
  unfolding is_reserved_for update_where
  update_idempotency_payload tenant c payload db = record db {
    idempotency =
        update_where (λ r. r.workspace_id == tenant && is_reserved_for c r)
          (λ r. record r { response_payload = payload }) db.idempotency;
  }
