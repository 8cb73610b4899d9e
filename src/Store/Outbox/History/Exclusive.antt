-- ===== src/Store/Outbox/History/Exclusive.antt =====
-- A lease over the history that follows it: crates/dandori-store/src/repositories/outbox.rs.
use dandori.Base.{
  ℕ, ◌+◌, ◌<◌, ◌≡◌, ◌≢◌, ◌∙◌, refl, Bool, true, false, some, List, arith, find, ◌==◌, ==_iff,
  Bool-cases, inl, inr, ap,
}
use dandori.Domain.Ids.{Uuid, Instant}
use dandori.Domain.Auth.{AuthContext}
use dandori.Store.Schema.{OutboxRow}
use dandori.Store.Table.{contains, update_where}
use dandori.Store.Table.Laws.{Distinct, find-holds}
use dandori.Store.Table.Keys.{find-update_where}
use dandori.Store.Issue.Insert.{outbox_row}
use dandori.Store.Outbox.Defs.{row_id, row_at, is_leased}
use dandori.Store.Outbox.Lease.{can_lease, lease_row, lease_outbox_batch}
use dandori.Store.Outbox.Lease.Laws.{message_ids, lease-row_at}
use dandori.Store.Outbox.Lease.Exclusive.{leased_row, lease-Distinct}
use dandori.Store.Outbox.Mark.{is_row, delivered_row, failed_row}
use dandori.Store.Outbox.Mark.Laws.{mark_outbox_delivered-eq-ok, mark_outbox_failed-eq-ok}
use dandori.Store.Outbox.Cleanup.{is_cleaned}
use dandori.Store.Outbox.Cleanup.Laws.{cleanup-row_at}
use dandori.Store.Outbox.History.{Step}
use dandori.Store.Outbox.History.Invariant.{Step-Distinct}
use dandori.Store.Outbox.History.Runs.{Condition, Steps}

-- A step that happens while a lease of a message runs: a lease starts before its end, and a mark is
-- of another message.
abbrev pub IsMeanwhile : {J : Type 0} {most : ℕ} → Uuid → Instant → Condition J most
IsMeanwhile k until _ _ (Step.enqueued c event id payload at rows unused) = Unit
IsMeanwhile k until _ _ (Step.leased_batch locked auth now lease_for max_items token rows) =
    now < until
IsMeanwhile k until _ _ (Step.marked_delivered auth id token owner now rows settled h) = id ≢ k
IsMeanwhile k until _ _ (Step.marked_failed auth id failure rows settled m h) = id ≢ k
IsMeanwhile k until _ _ (Step.cleaned auth delivered_before dead_letter_before rows) = Unit

module _ {J : Type 0} (most : ℕ) (k : Uuid) (until : Instant) (o : OutboxRow J)
    (leased : is_leased o.status ≡ true) (runs : o.leased_until ≡ some until) where
  -- An update of another row leaves this one alone.
  apart_update :
      (ws id : Uuid) (f : OutboxRow J → OutboxRow J) (rows : List (OutboxRow J))
      → ((a : OutboxRow J) → row_id (f a) ≡ row_id a)
      → id ≢ k
      → row_at k rows ≡ some o
      → row_at k (update_where (is_row ws id) f rows) ≡ some o
  apart_update ws id f rows same apart at =
      find-update_where row_id (is_row ws id) f k rows o same at
      ∙ ground (arith, find-holds (λ (r : OutboxRow J). row_id r == k) rows at)

  Step-keeps :
      (rows after : List (OutboxRow J)) (step : Step most rows after)
      → IsMeanwhile k until rows after step
      → Distinct row_id rows
      → row_at k rows ≡ some o
      → row_at k after ≡ some o
  unfolding find outbox_row can_lease delivered_row failed_row is_cleaned
  Step-keeps _ _ (Step.enqueued c event id payload t rows unused) m d at =
      elim (Bool-cases (id == k)) [
        | inl e ↦ absurd (ground (arith, ap (λ n. row_at n rows) ((==_iff id k).0 e)))
        | inr e ↦ rw e at
      ]
  Step-keeps _ _ (Step.leased_batch locked auth now lease_for max_items token rows) m d at =
      let (free, said, after) =
        lease-row_at locked auth now lease_for max_items token rows d k o at in
      ground arith
  Step-keeps _ _ (Step.marked_delivered auth id token owner now rows settled h) m d at =
      let (own, held, e) =
        (mark_outbox_delivered-eq-ok auth id token owner now rows d settled).0 h in
      rw e (apart_update auth.workspace_id id (delivered_row now) rows (λ a. refl) m at)
  Step-keeps _ _ (Step.marked_failed auth id failure rows settled l h) m d at =
      let (own, short, (p, (held, e))) =
        (mark_outbox_failed-eq-ok auth id failure rows d settled).0 h in
      rw e (
        apart_update auth.workspace_id id (failed_row failure (p.attempts + 1)) rows (λ a. refl) m
          at)
  Step-keeps _ _ (Step.cleaned auth delivered_before dead_letter_before rows) m d at =
      let (after, count) = cleanup-row_at auth delivered_before dead_letter_before rows d k o at in
      ground arith

  Steps-keep :
      {rows after : List (OutboxRow J)}
      → Steps most (IsMeanwhile k until) rows after
      → Distinct row_id rows
      → row_at k rows ≡ some o
      → Distinct row_id after × (row_at k after ≡ some o)
  Steps-keep Steps.no_step d at = (d, at)
  Steps-keep (Steps.step_then {rows} {middle} step m rest) d at =
      Steps-keep rest (Step-Distinct most rows middle step d) (Step-keeps rows middle step m d at)

  not_taken :
      (locked : Uuid → Bool) (auth : AuthContext) (now lease_for max_items token : ℕ)
      (rows : List (OutboxRow J))
      → now < until
      → Distinct row_id rows
      → row_at k rows ≡ some o
      → contains k
          (message_ids (lease_outbox_batch locked auth now lease_for max_items token rows).1)
        ≡ false
  unfolding can_lease
  not_taken locked auth now lease_for max_items token rows early d at =
      let (free, said, after) =
        lease-row_at locked auth now lease_for max_items token rows d k o at in
      ground arith

module _ {J : Type 0} (locked : Uuid → Bool) (auth : AuthContext)
    (now lease_for max_items token : ℕ) (rows : List (OutboxRow J))
    (distinct : Distinct row_id rows) where
  -- Of distinct rows, once a lease has returned a message: over any later steps, in any tenant and
  -- by any worker, that mark other messages only and lease before that lease runs out, the row of
  -- the message stays as the lease left it, and no lease before that time returns the message.
  pub lease_exclusive :
      (most : ℕ) (later_rows : List (OutboxRow J)) (locked_2 : Uuid → Bool) (auth_2 : AuthContext)
      (later for_2 most_2 token_2 : ℕ) (k : Uuid)
      → let (after, messages) = lease_outbox_batch locked auth now lease_for max_items token rows in
        contains k (message_ids messages) ≡ true
        → Steps most (IsMeanwhile k (now + lease_for)) after later_rows
        → later < now + lease_for
        → (row_at k later_rows ≡ row_at k after)
          × (contains k (
                message_ids
                  (lease_outbox_batch locked_2 auth_2 later for_2 most_2 token_2 later_rows).1)
              ≡ false)
  unfolding lease_row
  lease_exclusive most later_rows locked_2 auth_2 later for_2 most_2 token_2 k returned steps
        early =
      let (o, found) =
        leased_row locked auth now lease_for max_items token rows distinct k returned in
      let (free, said, at) =
        lease-row_at locked auth now lease_for max_items token rows distinct k o found in
      let r = lease_row now (now + lease_for) token auth.actor_id o in
      let at_r : row_at k (lease_outbox_batch locked auth now lease_for max_items token rows).0
          ≡ some r =
        ground (arith, at, said, returned) in
      let (d, kept) =
        Steps-keep most k (now + lease_for) r refl refl steps
          (lease-Distinct locked auth now lease_for max_items token rows distinct) at_r in
      (
        ground (arith, kept, at_r),
        not_taken most k (now + lease_for) r refl refl locked_2 auth_2 later for_2 most_2 token_2
            later_rows early d kept,
      )
