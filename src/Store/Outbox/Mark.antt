-- ===== src/Store/Outbox/Mark.antt =====
-- The transactions of crates/dandori-store/src/repositories/outbox.rs that end a lease.
pub mod Laws
use dandori.Base.{
  ℕ, ◌+◌, String, Bool, true, false, not, ◌&&◌, ◌||◌, Option, none, some, List, ltb, leb, ◌==◌,
  if◌then◌else◌, any, find, count_if, Result, Outcome, ok, err, fail_if, ok_or, ◌>>=◌, ◌>>◌,
}
use dandori.Base.Text.{char_length}
use dandori.Domain.Ids.{Uuid, Instant}
use dandori.Domain.Auth.{AuthContext}
use dandori.Store.Schema.{OutboxStatus, leased, delivered, failed, dead_letter, OutboxRow}
use dandori.Store.Error.{
  StoreError, check_violation, sqlx, outbox_update_not_single_row, outbox_lease_missing,
  outbox_not_leased, outbox_lease_expired, outbox_lease_owner_mismatch, outbox_lease_token_mismatch,
}
use dandori.Store.Table.{update_where}
use dandori.Store.Outbox.Defs.{
  OutboxFailureClassification, transient, terminal, OutboxFailureContext, is_leased, is_value,
  is_above,
}

abbrev pub is_terminal : OutboxFailureClassification → Bool
is_terminal terminal = true
is_terminal transient = false

-- `next_attempts >= failure.max_attempts`, or a terminal failure
unfoldable pub dead_letter_now : OutboxFailureContext → ℕ → Bool
dead_letter_now failure next_attempts =
    is_terminal failure.classification || leb failure.max_attempts next_attempts

-- `CHECK (last_error IS NULL OR char_length(last_error) <= 4000)`
unfoldable pub last_error_too_long : String → Bool
last_error_too_long message = ltb 4000 (char_length message)

module _ {J : Type 0} where
  -- `WHERE workspace_id = … AND id = …`
  abbrev pub is_row : Uuid → Uuid → OutboxRow J → Bool
  is_row workspace_id outbox_id o = o.workspace_id == workspace_id && o.id == outbox_id

  -- `fetch_lease_for_update`: the lease columns of the row.
  unfoldable pub fetch_lease_for_update : Uuid → Uuid → List (OutboxRow J) → Option (OutboxRow J)
  unfolding find
  fetch_lease_for_update workspace_id outbox_id rows = find (is_row workspace_id outbox_id) rows

  unfoldable pub validate_lease_transition :
      Uuid → Uuid → OutboxRow J → Uuid → Uuid → Instant → Outcome StoreError
  validate_lease_transition workspace_id outbox_id lease expected_token expected_owner now = do
    let not_leased = outbox_not_leased workspace_id outbox_id lease.status
    fail_if (not (is_leased lease.status)) not_leased
    actual_owner ← ok_or lease.lease_owner not_leased
    fail_if (not (actual_owner == expected_owner))
        (outbox_lease_owner_mismatch workspace_id outbox_id expected_owner actual_owner)
    actual_token ← ok_or lease.lease_token not_leased
    fail_if (not (actual_token == expected_token))
        (outbox_lease_token_mismatch workspace_id outbox_id expected_token actual_token)
    leased_until ← ok_or lease.leased_until not_leased
    fail_if (leb leased_until now) (outbox_lease_expired workspace_id outbox_id leased_until now)
    ok tt

  -- The condition of the three UPDATEs that end a lease.
  unfoldable pub holds_lease : Uuid → Uuid → Uuid → Uuid → Instant → OutboxRow J → Bool
  holds_lease workspace_id outbox_id token owner now o =
      is_row workspace_id outbox_id o
      && is_leased o.status
      && is_value o.lease_token token
      && is_value o.lease_owner owner
      && is_above o.leased_until now

  -- An UPDATE whose new values break a CHECK fails as soon as it meets a row.
  unfoldable pub execute_update :
      (OutboxRow J → Bool)
      → (OutboxRow J → OutboxRow J)
      → Bool
      → List (OutboxRow J)
      → Result (List (OutboxRow J) × ℕ) StoreError
  unfolding update_where count_if any
  execute_update p f refused rows = do
    fail_if (refused && any p rows) (sqlx check_violation)
    ok (update_where p f rows, count_if p rows)

  unfoldable pub delivered_row : Instant → OutboxRow J → OutboxRow J
  delivered_row now o = record o {
    status = delivered;
    published_at = some now;
    leased_at = none;
    leased_until = none;
    lease_token = none;
    lease_owner = none;
    updated_at = now;
    last_error = none;
  }

  unfoldable pub mark_outbox_delivered :
      AuthContext
      → Uuid
      → Uuid
      → Uuid
      → Instant
      → List (OutboxRow J)
      → Result (List (OutboxRow J)) StoreError
  unfolding fetch_lease_for_update validate_lease_transition execute_update holds_lease
      delivered_row
  mark_outbox_delivered auth outbox_id lease_token lease_owner now rows = do
    lease ←
        ok_or (fetch_lease_for_update auth.workspace_id outbox_id rows)
          (outbox_lease_missing auth.workspace_id outbox_id)
    fail_if (not (lease_owner == auth.actor_id))
        (outbox_lease_owner_mismatch auth.workspace_id outbox_id auth.actor_id lease_owner)
    validate_lease_transition auth.workspace_id outbox_id lease lease_token lease_owner now
    updated ←
        execute_update (holds_lease auth.workspace_id outbox_id lease_token lease_owner now)
          (delivered_row now) false rows
    fail_if (not (updated.1 == 1))
        (outbox_update_not_single_row auth.workspace_id outbox_id updated.1)
    ok updated.0

  unfoldable pub failed_row : OutboxFailureContext → ℕ → OutboxRow J → OutboxRow J
  unfolding dead_letter_now
  failed_row failure next_attempts o =
      let dead = dead_letter_now failure next_attempts in
      record o {
        status = if dead then dead_letter else failed;
        attempts = next_attempts;
        available_at = if dead then failure.now else failure.now + failure.retry_backoff;
        leased_at = none;
        leased_until = none;
        lease_token = none;
        lease_owner = none;
        updated_at = failure.now;
        last_error = some failure.error_message;
      }

  unfoldable pub mark_outbox_failed :
      AuthContext
      → Uuid
      → OutboxFailureContext
      → List (OutboxRow J)
      → Result (List (OutboxRow J)) StoreError
  unfolding fetch_lease_for_update validate_lease_transition execute_update holds_lease failed_row
  mark_outbox_failed auth outbox_id failure rows = do
    lease ←
        ok_or (fetch_lease_for_update auth.workspace_id outbox_id rows)
          (outbox_lease_missing auth.workspace_id outbox_id)
    fail_if (not (failure.lease_owner == auth.actor_id))
        (outbox_lease_owner_mismatch auth.workspace_id outbox_id auth.actor_id failure.lease_owner)
    validate_lease_transition auth.workspace_id outbox_id lease failure.lease_token
        failure.lease_owner failure.now
    updated ←
        execute_update
          (holds_lease auth.workspace_id outbox_id failure.lease_token failure.lease_owner
            failure.now)
          (failed_row failure (lease.attempts + 1)) (last_error_too_long failure.error_message) rows
    fail_if (not (updated.1 == 1))
        (outbox_update_not_single_row auth.workspace_id outbox_id updated.1)
    ok updated.0
