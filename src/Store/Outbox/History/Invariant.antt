-- ===== src/Store/Outbox/History/Invariant.antt =====
-- Every outbox that the steps lead to is well-formed.
use dandori.Base.{
  ℕ, ◌<◌, ◌+◌, ◌≡◌, ◌≢◌, Bool, true, not, ◌==◌, none, some, List, [], ◌∷◌, arith, refl, All, find,
  keep, Bool-cases, Option-cases, inl, inr, ◌⊎◌,
}
use dandori.Domain.Ids.{Uuid, Instant}
use dandori.Domain.Event.{IssueCreatedEventV1}
use dandori.Domain.Command.{CreateIssueCommandV1}
use dandori.Store.Schema.{OutboxRow}
use dandori.Store.Table.Laws.{Distinct, Distinct-keep, Distinct-update_where}
use dandori.Store.Table.Keys.{find-update_none}
use dandori.Store.Issue.Insert.{outbox_row}
use dandori.Store.Outbox.Defs.{row_id, row_at}
use dandori.Store.Outbox.Lease.{can_lease, lease_row, is_chosen, lease_outbox_batch}
use dandori.Store.Outbox.Lease.Exclusive.{lease-Distinct}
use dandori.Store.Outbox.Mark.{is_row, delivered_row, failed_row}
use dandori.Store.Outbox.Mark.Laws.{mark_outbox_delivered-eq-ok, mark_outbox_failed-eq-ok}
use dandori.Store.Outbox.Cleanup.{is_cleaned, cleanup_outbox}
use dandori.Store.Outbox.History.{Step, Reachable, is_sound}
use dandori.Store.Outbox.History.Lifecycle.{Edge, Step-Follows}

-- Distinct ids, and under each id a sound row.
pub record IsWellFormed {J : Type 0} (most : ℕ) (rows : List (OutboxRow J)) : Type 0 where
  pub distinct : Distinct row_id rows
  pub sound : (k : Uuid) (o : OutboxRow J) → row_at k rows ≡ some o → is_sound most o ≡ true

absent :
    {J : Type 0} (k : ℕ) (rows : List (OutboxRow J))
    → row_at k rows ≡ none
    → All (λ o. row_id o ≢ k) rows
unfolding find
absent k [] h = tt
absent k (o ∷ rows) h = ground (arith, absent k rows)

find-keep-none :
    {A : Type 0} (r p : A → Bool) (xs : List A) → find r xs ≡ none → find r (keep p xs) ≡ none
unfolding find keep
find-keep-none r p [] h = refl
find-keep-none r p (x ∷ xs) h = ground (arith, find-keep-none r p xs)

-- A row that was not there before is a new message, which is pending.
abbrev Appears : {J : Type 0} → Uuid → List (OutboxRow J) → Type 0
Appears {J} k after =
    (c : CreateIssueCommandV1) × (event : IssueCreatedEventV1) × (id : Uuid) × (payload : J)
    × (at : Instant) × (row_at k after ≡ some (outbox_row c event id payload at))

module _ {J : Type 0} (most : ℕ) where
  Edge-sound :
      0 < most
      → (o after : OutboxRow J) → Edge most o after
      → is_sound most o ≡ true
      → is_sound most after ≡ true
  unfolding is_sound can_lease lease_row delivered_row failed_row
  Edge-sound positive o after (Edge.kept e) h = ground arith
  Edge-sound positive o after (Edge.leases now until token owner can e) h = rw e (ground arith)
  Edge-sound positive o after (Edge.delivers now l e) h = rw e (ground arith)
  Edge-sound positive o after (Edge.fails failure m l e) h = rw e (ground arith)

  new_sound :
      (c : CreateIssueCommandV1) (event : IssueCreatedEventV1) (id : Uuid) (payload : J)
      (at : Instant)
      → is_sound most (outbox_row c event id payload at) ≡ true
  unfolding is_sound outbox_row
  new_sound c event id payload at = refl

  pub Step-Distinct :
      (rows after : List (OutboxRow J))
      → Step most rows after
      → Distinct row_id rows
      → Distinct row_id after
  unfolding outbox_row delivered_row failed_row cleanup_outbox
  Step-Distinct _ _ (Step.enqueued c event id payload at rows unused) d = (absent id rows unused, d)
  Step-Distinct _ _ (Step.leased_batch locked auth now lease_for max_items token rows) d =
      lease-Distinct locked auth now lease_for max_items token rows d
  Step-Distinct _ _ (Step.marked_delivered auth id token owner now rows settled h) d =
      let (own, (o, held), e) =
        (mark_outbox_delivered-eq-ok auth id token owner now rows d settled).0 h in
      rw e (
        Distinct-update_where row_id (delivered_row now) (λ a. refl) (is_row auth.workspace_id id)
          rows d)
  Step-Distinct _ _ (Step.marked_failed auth id failure rows settled m h) d =
      let (own, short, (o, (held, e))) =
        (mark_outbox_failed-eq-ok auth id failure rows d settled).0 h in
      rw e (
        Distinct-update_where row_id (failed_row failure (o.attempts + 1)) (λ a. refl)
          (is_row auth.workspace_id id) rows d)
  Step-Distinct _ _ (Step.cleaned auth delivered_before dead_letter_before rows) d =
      Distinct-keep row_id
        (λ o. not (is_cleaned auth.workspace_id delivered_before dead_letter_before o)) rows d

  Step-Appears :
      (rows after : List (OutboxRow J))
      → Step most rows after
      → Distinct row_id rows
      → (k : Uuid) → row_at k rows ≡ none
      → (row_at k after ≡ none) ⊎ Appears k after
  unfolding find outbox_row delivered_row failed_row cleanup_outbox lease_outbox_batch lease_row
  Step-Appears _ _ (Step.enqueued c event id payload at rows unused) d k h =
      elim (Bool-cases (id == k)) [
        | inl e ↦ inr (c, event, id, payload, at, rw e refl)
        | inr e ↦ inl (rw e h)
      ]
  Step-Appears _ _ (Step.leased_batch locked auth now lease_for max_items token rows) d k h = inl (
      find-update_none row_id (is_chosen locked auth now max_items rows)
        (lease_row now (now + lease_for) token auth.actor_id) k rows (λ a. refl) h)
  Step-Appears _ _ (Step.marked_delivered auth id token owner now rows settled m) d k h =
      let (own, (o, held), e) =
        (mark_outbox_delivered-eq-ok auth id token owner now rows d settled).0 m in
      inl (
        rw e (
          find-update_none row_id (is_row auth.workspace_id id) (delivered_row now) k rows
            (λ a. refl) h))
  Step-Appears _ _ (Step.marked_failed auth id failure rows settled m f) d k h =
      let (own, short, (o, (held, e))) =
        (mark_outbox_failed-eq-ok auth id failure rows d settled).0 f in
      inl (
        rw e (
          find-update_none row_id (is_row auth.workspace_id id)
            (failed_row failure (o.attempts + 1)) k rows (λ a. refl) h))
  Step-Appears _ _ (Step.cleaned auth delivered_before dead_letter_before rows) d k h = inl (
      find-keep-none (λ o. row_id o == k)
        (λ o. not (is_cleaned auth.workspace_id delivered_before dead_letter_before o)) rows h)

  pub Step-IsWellFormed :
      0 < most
      → (rows after : List (OutboxRow J)) → Step most rows after
      → IsWellFormed most rows
      → IsWellFormed most after
  Step-IsWellFormed positive rows after step w = record {
    distinct = Step-Distinct rows after step w.distinct;
    sound = λ k o_after at. elim (Option-cases (row_at k rows)) [
      | inr (o, found) ↦ elim (Step-Follows most rows after w.distinct step k o found) [
        | inl gone ↦ absurd (ground arith)
        | inr (o_next, at_next, edge) ↦
            ground (arith, Edge-sound positive o o_next edge (w.sound k o found))
      ]
      | inl missing ↦ elim (Step-Appears rows after step w.distinct k missing) [
        | inl still ↦ absurd (ground arith)
        | inr (c, event, id, payload, t, at_new) ↦ ground (arith, new_sound c event id payload t)
      ]
    ];
  }

  -- If the limit of attempts is at least one, every outbox that the steps lead to from an empty one
  -- has distinct ids and only rows whose columns agree: a lease is whole exactly while its row is
  -- leased, exactly the delivered rows are published, a pending row has counted no failure and a
  -- failed or dead-lettered one has, a leased row has an error text exactly if it has counted a
  -- failure, and only a dead letter may have used up its attempts.
  pub Reachable-IsWellFormed :
      0 < most → (rows : List (OutboxRow J)) → Reachable most rows → IsWellFormed most rows
  unfolding find
  Reachable-IsWellFormed positive _ Reachable.empty = record {
    distinct = tt;
    sound = λ k o h. absurd (ground arith);
  }
  Reachable-IsWellFormed positive _ (Reachable.then_step rows after r step) =
      Step-IsWellFormed positive rows after step (Reachable-IsWellFormed positive rows r)
