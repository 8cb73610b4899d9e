-- ===== src/Store/Outbox/History.antt =====
-- The outbox as a state machine: what the transactions of
-- crates/dandori-store/src/repositories/{issue,outbox}.rs can do to its rows, one after another.
pub mod Invariant
pub mod Lifecycle
pub mod Attempts
pub mod Runs
pub mod Exclusive
use dandori.Base.{
  ℕ, Bool, true, false, ◌&&◌, Option, none, some, ◌≡◌, List, [], ◌∷◌, if◌then◌else◌, ltb, leb, ◌==◌,
  ok,
}
use dandori.Domain.Ids.{Uuid, Instant}
use dandori.Domain.Event.{IssueCreatedEventV1}
use dandori.Domain.Command.{CreateIssueCommandV1}
use dandori.Domain.Auth.{AuthContext}
use dandori.Store.Schema.{OutboxStatus, pending, leased, delivered, failed, dead_letter, OutboxRow}
use dandori.Store.Issue.Insert.{outbox_row}
use dandori.Store.Outbox.Defs.{OutboxFailureContext, row_at}
use dandori.Store.Outbox.Lease.{lease_outbox_batch}
use dandori.Store.Outbox.Mark.{mark_outbox_delivered, mark_outbox_failed}
use dandori.Store.Outbox.Cleanup.{cleanup_outbox}

-- Any worker in any tenant; `max_attempts` is the limit of the workers' configuration.
pub data Step {J : Type 0} (max_attempts : ℕ)
    : List (OutboxRow J) → List (OutboxRow J) → Type 0 where
  enqueued :
      (c : CreateIssueCommandV1) (event : IssueCreatedEventV1) (id : Uuid) (payload : J)
      (at : Instant) (rows : List (OutboxRow J))
      → row_at id rows ≡ none
      → Step max_attempts rows (outbox_row c event id payload at ∷ rows)
  leased_batch :
      (locked : Uuid → Bool) (auth : AuthContext) (now lease_for max_items token : ℕ)
      (rows : List (OutboxRow J))
      → Step max_attempts rows (lease_outbox_batch locked auth now lease_for max_items token rows).0
  marked_delivered :
      (auth : AuthContext) (id token owner : Uuid) (now : Instant)
      (rows settled : List (OutboxRow J))
      → mark_outbox_delivered auth id token owner now rows ≡ ok settled
      → Step max_attempts rows settled
  marked_failed :
      (auth : AuthContext) (id : Uuid) (failure : OutboxFailureContext)
      (rows settled : List (OutboxRow J))
      → failure.max_attempts ≡ max_attempts
      → mark_outbox_failed auth id failure rows ≡ ok settled
      → Step max_attempts rows settled
  cleaned :
      (auth : AuthContext) (delivered_before dead_letter_before : Instant)
      (rows : List (OutboxRow J))
      → Step max_attempts rows (cleanup_outbox auth delivered_before dead_letter_before rows).0

-- The outboxes that the steps lead to from an empty one.
pub data Reachable {J : Type 0} (max_attempts : ℕ) : List (OutboxRow J) → Type 0 where
  empty : Reachable max_attempts []
  then_step :
      (rows after : List (OutboxRow J))
      → Reachable max_attempts rows
      → Step max_attempts rows after
      → Reachable max_attempts after

abbrev is_some : {A : Type 0} → Option A → Bool
is_some none = false
is_some (some a) = true

abbrev is_none : {A : Type 0} → Option A → Bool
is_none none = true
is_none (some a) = false

module _ {J : Type 0} where
  abbrev no_lease : OutboxRow J → Bool
  no_lease o =
      is_none o.lease_token
      && is_none o.lease_owner
      && is_none o.leased_at
      && is_none o.leased_until

  abbrev full_lease : OutboxRow J → Bool
  full_lease o =
      is_some o.lease_token
      && is_some o.lease_owner
      && is_some o.leased_at
      && is_some o.leased_until

  abbrev sound_as : OutboxStatus → ℕ → OutboxRow J → Bool
  sound_as pending most o =
      no_lease o && is_none o.published_at && is_none o.last_error && o.attempts == 0
  sound_as leased most o =
      full_lease o
      && is_none o.published_at
      && ltb o.attempts most
      && (if is_none o.last_error then o.attempts == 0 else ltb 0 o.attempts)
  sound_as delivered most o =
      no_lease o && is_some o.published_at && is_none o.last_error && ltb o.attempts most
  sound_as failed most o =
      no_lease o
      && is_none o.published_at
      && is_some o.last_error
      && ltb 0 o.attempts
      && ltb o.attempts most
  sound_as dead_letter most o =
      no_lease o
      && is_none o.published_at
      && is_some o.last_error
      && ltb 0 o.attempts
      && leb o.attempts most

  -- What the columns of a row say together: a lease is whole exactly while the row is leased, the
  -- row is published exactly when it is delivered, an undelivered row has an error text exactly if
  -- it has counted a failure, and the attempts stay below the limit until it is dead-lettered.
  unfoldable pub is_sound : ℕ → OutboxRow J → Bool
  is_sound most o = sound_as o.status most o
