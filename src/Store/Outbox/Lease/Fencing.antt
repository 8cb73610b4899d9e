-- ===== src/Store/Outbox/Lease/Fencing.antt =====
-- A lease that has been taken over is void.
use dandori.Base.{ℕ, Bool, ◌≡◌, ◌≢◌, true, List, arith, ok}
use dandori.Domain.Ids.{Uuid}
use dandori.Domain.Auth.{AuthContext}
use dandori.Store.Schema.{OutboxRow}
use dandori.Store.Table.{contains}
use dandori.Store.Table.Laws.{Distinct}
use dandori.Store.Outbox.Defs.{OutboxFailureContext, row_id}
use dandori.Store.Outbox.Lease.{lease_row, lease_outbox_batch}
use dandori.Store.Outbox.Lease.Laws.{message_ids, lease-row_at}
use dandori.Store.Outbox.Lease.Exclusive.{lease-Distinct, leased_row}
use dandori.Store.Outbox.Mark.{
  mark_outbox_delivered, mark_outbox_failed, fetch_lease_for_update, is_row, holds_lease,
}
use dandori.Store.Outbox.Mark.Laws.{mark_outbox_delivered-eq-ok, mark_outbox_failed-eq-ok, IsHeld}
use dandori.Store.Table.Order.{find-widen}

module _ {J : Type 0} (locked : Uuid → Bool) (auth : AuthContext)
    (now lease_for max_items token : ℕ) (rows : List (OutboxRow J))
    (distinct : Distinct row_id rows) (k : Uuid) where
  abbrev pub after_lease : List (OutboxRow J)
  after_lease = (lease_outbox_batch locked auth now lease_for max_items token rows).0

  -- Whoever holds the lease of a message that has just been leased holds its token.
  held_token :
      (ws stale owner later : ℕ) (o : OutboxRow J)
      → contains k
          (message_ids (lease_outbox_batch locked auth now lease_for max_items token rows).1)
        ≡ true
      → IsHeld ws k stale owner later after_lease o
      → stale ≡ token
  unfolding fetch_lease_for_update holds_lease lease_row
  held_token ws stale owner later o returned held =
      let (before, found) =
        leased_row locked auth now lease_for max_items token rows distinct k returned in
      let (free, said, at) =
        lease-row_at locked auth now lease_for max_items token rows distinct k before found in
      ground (arith, find-widen row_id (is_row ws k) after_lease o d held.0)
    where
      d : Distinct row_id after_lease
      d = lease-Distinct locked auth now lease_for max_items token rows distinct

  -- While a message is leased, a worker that names another token, such as that of an earlier lease
  -- of the same message, can neither mark it delivered nor failed, in any tenant and at any time.
  pub lease_fences :
      (other : AuthContext) (stale owner later : ℕ) (failure : OutboxFailureContext)
      (settled : List (OutboxRow J))
      → contains k
          (message_ids (lease_outbox_batch locked auth now lease_for max_items token rows).1)
        ≡ true
      → (stale ≢ token → mark_outbox_delivered other k stale owner later after_lease ≢ ok settled)
        × (failure.lease_token ≢ token
            → mark_outbox_failed other k failure after_lease ≢ ok settled)
  lease_fences other stale owner later failure settled returned = (
    (λ apart done.
        let (own, (o, held), e) =
          (mark_outbox_delivered-eq-ok other k stale owner later after_lease d settled).0 done in
        apart (held_token other.workspace_id stale owner later o returned held)),
    (λ apart done.
        let (own, short, (o, (held, e))) =
          (mark_outbox_failed-eq-ok other k failure after_lease d settled).0 done in
        apart (
          held_token other.workspace_id failure.lease_token failure.lease_owner failure.now o
            returned held)),
  )
    where
      d : Distinct row_id after_lease
      d = lease-Distinct locked auth now lease_for max_items token rows distinct
