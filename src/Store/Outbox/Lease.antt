-- ===== src/Store/Outbox/Lease.antt =====
-- `lease_outbox_batch` of crates/dandori-store/src/repositories/outbox.rs
pub mod Laws
pub mod Exclusive
pub mod Fencing
pub mod Contents
use dandori.Base.{ℕ, ◌+◌, Bool, not, ◌&&◌, ◌||◌, some, List, map, leb, ◌==◌, keep, take}
use dandori.Domain.Ids.{Uuid, Instant}
use dandori.Domain.Auth.{AuthContext}
use dandori.Store.Schema.{leased, OutboxRow}
use dandori.Store.Table.{update_where, sort_by, pair_before, contains}
use dandori.Store.Outbox.Defs.{OutboxMessage, is_waiting, is_leased, is_at_most}

module _ {J : Type 0} where
  -- The `WHERE` clause of the candidates.
  unfoldable pub can_lease : Uuid → Instant → OutboxRow J → Bool
  can_lease workspace_id now o =
      o.workspace_id == workspace_id
      && (is_waiting o.status && leb o.available_at now
          || is_leased o.status && is_at_most o.leased_until now)

  -- `ORDER BY available_at, id`
  unfoldable pub due_before : OutboxRow J → OutboxRow J → Bool
  unfolding pair_before
  due_before a b = pair_before a.available_at a.id b.available_at b.id

  unfoldable pub lease_row : Instant → Instant → Uuid → Uuid → OutboxRow J → OutboxRow J
  lease_row now lease_until token owner o = record o {
    status = leased;
    leased_at = some now;
    leased_until = some lease_until;
    lease_token = some token;
    lease_owner = some owner;
    updated_at = now;
  }

  unfoldable pub message_of : Instant → Uuid → Uuid → OutboxRow J → OutboxMessage J
  message_of lease_until token owner o = record {
    id = o.id;
    workspace_id = o.workspace_id;
    event_id = o.event_id;
    event_type = o.event_type;
    aggregate_type = o.aggregate_type;
    aggregate_id = o.aggregate_id;
    correlation_id = o.correlation_id;
    payload = o.payload;
    attempts = o.attempts;
    lease_token = token;
    lease_owner = owner;
    leased_until = lease_until;
  }

  -- The ids that the `WITH candidates` query locks. `locked` tells the rows that another
  -- transaction holds at this moment: SKIP LOCKED passes over them.
  unfoldable pub candidates : (Uuid → Bool) → Uuid → Instant → ℕ → List (OutboxRow J) → List Uuid
  unfolding can_lease due_before sort_by keep
  candidates locked workspace_id now max_items rows =
      map (λ o. o.id)
        (take max_items
          (sort_by due_before (keep (λ o. can_lease workspace_id now o && not (locked o.id)) rows)))

  -- `WHERE o.id = candidates.id`, under the policy of the tenant.
  unfoldable pub is_chosen :
      (Uuid → Bool) → AuthContext → Instant → ℕ → List (OutboxRow J) → OutboxRow J → Bool
  unfolding candidates
  is_chosen locked auth now max_items rows o =
      o.workspace_id == auth.workspace_id
      && contains o.id (candidates locked auth.workspace_id now max_items rows)

  -- The `lease_token` is a fresh `Uuid::now_v7()`. SQL leaves the order of RETURNING open: the
  -- messages come in the order of the table here.
  unfoldable pub lease_outbox_batch :
      (Uuid → Bool)
      → AuthContext
      → Instant
      → ℕ
      → ℕ
      → Uuid
      → List (OutboxRow J)
      → List (OutboxRow J) × List (OutboxMessage J)
  unfolding is_chosen lease_row message_of update_where keep
  lease_outbox_batch locked auth now lease_for max_items lease_token rows =
      let chosen = is_chosen locked auth now max_items rows in
      let lease_until = now + lease_for in
      (
        update_where chosen (lease_row now lease_until lease_token auth.actor_id) rows,
        map (message_of lease_until lease_token auth.actor_id) (keep chosen rows),
      )
