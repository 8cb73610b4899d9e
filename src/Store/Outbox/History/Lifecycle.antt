-- ===== src/Store/Outbox/History/Lifecycle.antt =====
-- What a step does to the row under an id.
use dandori.Base.{
  ℕ, ◌+◌, ◌≡◌, Bool, true, ◌||◌, ◌==◌, none, some, List, ◌∷◌, arith, refl, ap, ok, find, Bool-cases,
  inl, inr, ◌⊎◌, ==_iff,
}
use dandori.Domain.Ids.{Uuid, Instant}
use dandori.Domain.Event.{IssueCreatedEventV1}
use dandori.Domain.Command.{CreateIssueCommandV1}
use dandori.Domain.Auth.{AuthContext}
use dandori.Store.Schema.{OutboxRow}
use dandori.Store.Table.{update_where}
use dandori.Store.Table.Laws.{Distinct, find-holds}
use dandori.Store.Table.Keys.{find-narrow, find-update_where}
use dandori.Store.Issue.Insert.{outbox_row}
use dandori.Store.Outbox.Defs.{
  OutboxFailureContext, row_id, row_at, is_delivered, is_dead_letter, is_leased,
}
use dandori.Store.Outbox.Lease.{can_lease, lease_row, is_chosen, lease_outbox_batch}
use dandori.Store.Outbox.Lease.Laws.{lease-row_at}
use dandori.Store.Outbox.Mark.{
  holds_lease, is_row, mark_outbox_delivered, mark_outbox_failed, fetch_lease_for_update,
  delivered_row, failed_row,
}
use dandori.Store.Outbox.Mark.Laws.{mark_outbox_delivered-eq-ok, mark_outbox_failed-eq-ok}
use dandori.Store.Outbox.Cleanup.{is_cleaned, cleanup_outbox}
use dandori.Store.Outbox.Cleanup.Laws.{cleanup-row_at}
use dandori.Store.Outbox.History.{Step}

-- What a step may make of a row that it does not delete.
pub data Edge {J : Type 0} (most : ℕ) (o after : OutboxRow J) : Type 0 where
  kept : after ≡ o → Edge most o after
  leases :
      (now until token owner : ℕ)
      → can_lease o.workspace_id now o ≡ true
      → after ≡ lease_row now until token owner o
      → Edge most o after
  delivers :
      (now : Instant) → is_leased o.status ≡ true → after ≡ delivered_row now o → Edge most o after
  fails :
      (failure : OutboxFailureContext)
      → failure.max_attempts ≡ most
      → is_leased o.status ≡ true
      → after ≡ failed_row failure (o.attempts + 1) o
      → Edge most o after

-- A row that `cleanup_outbox` may delete.
abbrev pub is_settled : {J : Type 0} → OutboxRow J → Bool
is_settled o = is_delivered o.status || is_dead_letter o.status

-- The row is deleted, or follows an edge.
abbrev pub Follows : {J : Type 0} → ℕ → Uuid → OutboxRow J → List (OutboxRow J) → Type 0
Follows {J} most k o after =
    ((row_at k after ≡ none) × (is_settled o ≡ true))
    ⊎ ((o_after : OutboxRow J) × (row_at k after ≡ some o_after) × Edge most o o_after)

module _ {J : Type 0} (most : ℕ) (rows : List (OutboxRow J)) (distinct : Distinct row_id rows) where
  module _ (k : Uuid) (o : OutboxRow J) (found : row_at k rows ≡ some o) where
    enqueued-Follows :
        (c : CreateIssueCommandV1) (event : IssueCreatedEventV1) (id : Uuid) (payload : J)
        (at : Instant)
        → row_at id rows ≡ none
        → Follows most k o (outbox_row c event id payload at ∷ rows)
    unfolding find outbox_row
    enqueued-Follows c event id payload at unused = elim (Bool-cases (id == k)) [
      | inl e ↦ absurd (ground (arith, ap (λ n. row_at n rows) ((==_iff id k).0 e)))
      | inr e ↦ inr (o, (rw e found), Edge.kept refl)
    ]

    leased-Follows :
        (locked : Uuid → Bool) (auth : AuthContext) (now lease_for max_items token : ℕ)
        → Follows most k o (lease_outbox_batch locked auth now lease_for max_items token rows).0
    unfolding can_lease
    leased-Follows locked auth now lease_for max_items token =
        let (free, said, at) =
          lease-row_at locked auth now lease_for max_items token rows distinct k o found in
        elim (Bool-cases (is_chosen locked auth now max_items rows o)) [
          | inl e ↦ inr (
            lease_row now (now + lease_for) token auth.actor_id o,
            ground arith,
            Edge.leases now (now + lease_for) token auth.actor_id (ground (arith, free e)) refl,
          )
          | inr e ↦ inr (o, ground arith, Edge.kept refl)
        ]

    own_id : row_id o ≡ k
    own_id = (==_iff (row_id o) k).0 (find-holds (λ r. row_id r == k) rows found)

    same_row :
        (ws id : Uuid) (fetched : OutboxRow J)
        → is_row ws id o ≡ true
        → fetch_lease_for_update ws id rows ≡ some fetched
        → fetched ≡ o
    unfolding fetch_lease_for_update
    same_row ws id fetched t h =
        ground (
          arith,
          find-narrow row_id k (is_row ws id) rows o (λ a q. ground (arith, own_id)) found t,
        )

    -- An update of the row of an id meets this row if it has that id, and leaves it alone otherwise.
    updated-Follows :
        (ws id : Uuid) (f : OutboxRow J → OutboxRow J) (fetched : OutboxRow J)
        → ((a : OutboxRow J) → row_id (f a) ≡ row_id a)
        → fetch_lease_for_update ws id rows ≡ some fetched
        → (fetched ≡ o → Edge most o (f o))
        → Follows most k o (update_where (is_row ws id) f rows)
    updated-Follows ws id f fetched same h edge =
        let at = find-update_where row_id (is_row ws id) f k rows o same found in
        elim (Bool-cases (is_row ws id o)) [
          | inl t ↦ inr (f o, ground arith, edge (same_row ws id fetched t h))
          | inr t ↦ inr (o, ground arith, Edge.kept refl)
        ]

    delivered-Follows :
        (auth : AuthContext) (id token owner now : ℕ) (settled : List (OutboxRow J))
        → mark_outbox_delivered auth id token owner now rows ≡ ok settled
        → Follows most k o settled
    unfolding delivered_row holds_lease
    delivered-Follows auth id token owner now settled h =
        let (own, (fetched, held), e) =
          (mark_outbox_delivered-eq-ok auth id token owner now rows distinct settled).0 h in
        rw e (
          updated-Follows auth.workspace_id id (delivered_row now) fetched (λ a. refl) held.0
            (λ same. Edge.delivers now (ground arith) refl))

    failed-Follows :
        (auth : AuthContext) (id : Uuid) (failure : OutboxFailureContext)
        (settled : List (OutboxRow J))
        → failure.max_attempts ≡ most
        → mark_outbox_failed auth id failure rows ≡ ok settled
        → Follows most k o settled
    unfolding failed_row holds_lease
    failed-Follows auth id failure settled m h =
        let (own, short, (fetched, (held, e))) =
          (mark_outbox_failed-eq-ok auth id failure rows distinct settled).0 h in
        rw e (
          updated-Follows auth.workspace_id id (failed_row failure (fetched.attempts + 1)) fetched
            (λ a. refl) held.0 (λ same. Edge.fails failure m (ground arith) (rw same refl)))

    cleaned-Follows :
        (auth : AuthContext) (delivered_before dead_letter_before : Instant)
        → Follows most k o (cleanup_outbox auth delivered_before dead_letter_before rows).0
    unfolding is_cleaned
    cleaned-Follows auth delivered_before dead_letter_before =
        let (at, count) =
          cleanup-row_at auth delivered_before dead_letter_before rows distinct k o found in
        elim (Bool-cases (is_cleaned auth.workspace_id delivered_before dead_letter_before o)) [
          | inl e ↦ inl (ground arith, ground arith)
          | inr e ↦ inr (o, ground arith, Edge.kept refl)
        ]

-- Of distinct rows, a step deletes the row under an id only if it is delivered or dead-lettered;
-- otherwise the row stays under its id, and is as it was, or goes one edge further: a due row is
-- leased, and a leased row is delivered, or fails with one attempt more.
pub Step-Follows :
    {J : Type 0} (most : ℕ) (rows after : List (OutboxRow J))
    → Distinct row_id rows
    → Step most rows after
    → (k : Uuid) (o : OutboxRow J) → row_at k rows ≡ some o
    → Follows most k o after
Step-Follows most _ _ d (Step.enqueued c event id payload at rows unused) k o f =
    enqueued-Follows most rows d k o f c event id payload at unused
Step-Follows most _ _ d (Step.leased_batch locked auth now lease_for max_items token rows) k o f =
    leased-Follows most rows d k o f locked auth now lease_for max_items token
Step-Follows most _ _ d (Step.marked_delivered auth id token owner now rows settled h) k o f =
    delivered-Follows most rows d k o f auth id token owner now settled h
Step-Follows most _ _ d (Step.marked_failed auth id failure rows settled m h) k o f =
    failed-Follows most rows d k o f auth id failure settled m h
Step-Follows most _ _ d (Step.cleaned auth delivered_before dead_letter_before rows) k o f =
    cleaned-Follows most rows d k o f auth delivered_before dead_letter_before
