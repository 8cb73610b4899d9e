-- ===== src/Store/Outbox/Defs.antt =====
-- The data of crates/dandori-store/src/repositories/outbox.rs and pg_store.rs, and the tests on the
-- columns of a row.
use dandori.Base.{ℕ, String, Bool, true, false, Option, none, some, ltb, leb, ◌==◌, List, find}
use dandori.Domain.Ids.{Uuid, Instant}
use dandori.Store.Schema.{OutboxRow, OutboxStatus, pending, leased, delivered, failed, dead_letter}

pub record OutboxMessage (J : Type 0) : Type 0 where
  pub id : Uuid
  pub workspace_id : Uuid
  pub event_id : Uuid
  pub event_type : String
  pub aggregate_type : String
  pub aggregate_id : Uuid
  pub correlation_id : Uuid
  pub payload : J
  pub attempts : ℕ
  pub lease_token : Uuid
  pub lease_owner : Uuid
  pub leased_until : Instant

pub data OutboxFailureClassification : Type 0 where
  transient terminal : OutboxFailureClassification

-- Durations are counts of microseconds; `max_attempts` is an `i32`.
pub record OutboxFailureContext : Type 0 where
  pub classification : OutboxFailureClassification
  pub lease_token : Uuid
  pub lease_owner : Uuid
  pub now : Instant
  pub error_message : String
  pub max_attempts : ℕ
  pub retry_backoff : ℕ

abbrev pub is_leased : OutboxStatus → Bool
is_leased leased = true
is_leased _ = false

-- `status = 'pending' OR status = 'failed'`
abbrev pub is_waiting : OutboxStatus → Bool
is_waiting pending = true
is_waiting failed = true
is_waiting _ = false

-- SQL comparisons with a column that may be NULL: NULL is not true.
abbrev pub is_at_most : Option ℕ → ℕ → Bool
is_at_most none n = false
is_at_most (some m) n = leb m n

abbrev pub is_above : Option ℕ → ℕ → Bool
is_above none n = false
is_above (some m) n = ltb n m

abbrev pub is_below : Option ℕ → ℕ → Bool
is_below none n = false
is_below (some m) n = ltb m n

abbrev pub is_value : Option ℕ → ℕ → Bool
is_value none n = false
is_value (some m) n = m == n

abbrev pub is_delivered : OutboxStatus → Bool
is_delivered delivered = true
is_delivered _ = false

abbrev pub is_dead_letter : OutboxStatus → Bool
is_dead_letter dead_letter = true
is_dead_letter _ = false

abbrev pub row_id : {J : Type 0} → OutboxRow J → ℕ
row_id o = o.id

-- The row that stands under an id, which is the primary key.
abbrev pub row_at : {J : Type 0} → Uuid → List (OutboxRow J) → Option (OutboxRow J)
row_at k rows = find (λ o. row_id o == k) rows
