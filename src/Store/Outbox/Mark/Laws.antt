-- ===== src/Store/Outbox/Mark/Laws.antt =====
-- When the transactions that end a lease commit, and what they leave behind.
use dandori.Base.{
  ◌+◌, ◌≡◌, ◌↔◌, ◌∙◌, ap, sym, true, false, some, List, arith, count_if, Option-cases, Bool-cases,
  inl, inr, ok, err,
}
use dandori.Domain.Ids.{Uuid, Instant}
use dandori.Domain.Auth.{AuthContext}
use dandori.Store.Schema.{OutboxRow}
use dandori.Store.Error.{sqlx, check_violation}
use dandori.Store.Table.{update_where}
use dandori.Store.Table.Laws.{Distinct, count-found, any-found, update-found, find-holds}
use dandori.Store.Outbox.Defs.{OutboxFailureContext, row_id}
use dandori.Store.Outbox.Mark.{
  is_row, fetch_lease_for_update, validate_lease_transition, holds_lease, execute_update,
  delivered_row, mark_outbox_delivered, failed_row, last_error_too_long, mark_outbox_failed,
}

module _ {J : Type 0} (ws id token owner : Uuid) (now : Instant) where
  is_row-id : (o : OutboxRow J) → is_row ws id o ≡ true → row_id o ≡ id
  is_row-id o h = ground arith

  holds_lease-is_row :
      (o : OutboxRow J) → holds_lease ws id token owner now o ≡ true → is_row ws id o ≡ true
  unfolding holds_lease
  holds_lease-is_row o h = ground arith

  -- The checks in Rust accept exactly the rows that the condition of the UPDATE accepts.
  validate_lease_transition-eq-ok :
      (o : OutboxRow J)
      → is_row ws id o ≡ true
      → (validate_lease_transition ws id o token owner now ≡ ok tt)
        ↔ (holds_lease ws id token owner now o ≡ true)
  unfolding holds_lease validate_lease_transition
  validate_lease_transition-eq-ok o r = ground arith

-- The row that the caller may settle: it stands in the tenant, leased under the token by the
-- owner, and the lease runs beyond `now`.
abbrev pub IsHeld :
    {J : Type 0} → Uuid → Uuid → Uuid → Uuid → Instant → List (OutboxRow J) → OutboxRow J → Type 0
IsHeld ws id token owner now rows o =
    (fetch_lease_for_update ws id rows ≡ some o) × (holds_lease ws id token owner now o ≡ true)

module _ {J : Type 0} (ws id token owner : Uuid) (now : Instant) (rows : List (OutboxRow J))
    (distinct : Distinct row_id rows) (o : OutboxRow J)
    (held : IsHeld ws id token owner now rows o) where
  held_count : count_if (holds_lease ws id token owner now) rows ≡ 1
  unfolding fetch_lease_for_update
  held_count =
      rw
        (count-found row_id id (is_row ws id) (holds_lease ws id token owner now)
          (is_row-id ws id token owner now) (holds_lease-is_row ws id token owner now) rows o
          distinct held.0)
        (rw held.1)

  pub held_update :
      (f : OutboxRow J → OutboxRow J)
      → update_where (holds_lease ws id token owner now) f rows ≡ update_where (is_row ws id) f rows
  unfolding fetch_lease_for_update
  held_update f =
      update-found row_id id (is_row ws id) (holds_lease ws id token owner now)
        (is_row-id ws id token owner now) (holds_lease-is_row ws id token owner now) f rows o
        distinct held.0 held.1

  held_valid : validate_lease_transition ws id o token owner now ≡ ok tt
  unfolding fetch_lease_for_update
  held_valid =
      (validate_lease_transition-eq-ok ws id token owner now o
          (find-holds (is_row ws id) rows held.0)).1
        held.1

module _ {J : Type 0} (auth : AuthContext) (id token owner : Uuid) (now : Instant)
    (rows : List (OutboxRow J)) (distinct : Distinct row_id rows) where
  delivered_commits :
      (o : OutboxRow J)
      → owner ≡ auth.actor_id
      → IsHeld auth.workspace_id id token owner now rows o
      → mark_outbox_delivered auth id token owner now rows
        ≡ ok (update_where (is_row auth.workspace_id id) (delivered_row now) rows)
  unfolding mark_outbox_delivered execute_update
  delivered_commits o own h = ground (
    arith,
    held_valid auth.workspace_id id token owner now rows distinct o h,
    held_count auth.workspace_id id token owner now rows distinct o h,
    held_update auth.workspace_id id token owner now rows distinct o h (delivered_row now),
  )

  delivered_requires :
      (settled : List (OutboxRow J))
      → mark_outbox_delivered auth id token owner now rows ≡ ok settled
      → (owner ≡ auth.actor_id)
        × ((o : OutboxRow J) × IsHeld auth.workspace_id id token owner now rows o)
  unfolding mark_outbox_delivered
  delivered_requires settled h =
      elim (Option-cases (fetch_lease_for_update auth.workspace_id id rows)) [
        | inl e ↦ ground arith
        | inr (o, e) ↦ (
          ground arith,
          (o, (e, ground (arith, find-holds (is_row auth.workspace_id id) rows e))),
        )
      ]

  -- Of distinct rows, `mark_outbox_delivered` commits exactly if the caller names itself as the
  -- owner and holds the lease of the row; it then makes that row delivered and changes no other.
  pub mark_outbox_delivered-eq-ok :
      (settled : List (OutboxRow J))
      → (mark_outbox_delivered auth id token owner now rows ≡ ok settled) ↔ (
          (owner ≡ auth.actor_id)
          × ((o : OutboxRow J) × IsHeld auth.workspace_id id token owner now rows o)
          × (settled ≡ update_where (is_row auth.workspace_id id) (delivered_row now) rows))
  mark_outbox_delivered-eq-ok settled =
      (forward, λ h. delivered_commits h.1.0 h.0 h.1.1 ∙ ap ok (sym h.2))
    where
      forward :
          mark_outbox_delivered auth id token owner now rows ≡ ok settled
          → (owner ≡ auth.actor_id)
            × ((o : OutboxRow J) × IsHeld auth.workspace_id id token owner now rows o)
            × (settled ≡ update_where (is_row auth.workspace_id id) (delivered_row now) rows)
      forward h =
          let r = delivered_requires settled h in
          (r.0, r.1, ground (arith, delivered_commits r.1.0 r.0 r.1.1))

module _ {J : Type 0} (auth : AuthContext) (id : Uuid) (failure : OutboxFailureContext)
    (rows : List (OutboxRow J)) (distinct : Distinct row_id rows) where
  open failure use {lease_token, lease_owner, now, error_message}

  failed_commits :
      (o : OutboxRow J)
      → lease_owner ≡ auth.actor_id
      → IsHeld auth.workspace_id id lease_token lease_owner now rows o
      → last_error_too_long error_message ≡ false
      → mark_outbox_failed auth id failure rows
        ≡ ok (update_where (is_row auth.workspace_id id) (failed_row failure (o.attempts + 1)) rows)
  unfolding mark_outbox_failed execute_update
  failed_commits o own h short = ground (
    arith,
    held_valid auth.workspace_id id lease_token lease_owner now rows distinct o h,
    held_count auth.workspace_id id lease_token lease_owner now rows distinct o h,
    held_update auth.workspace_id id lease_token lease_owner now rows distinct o h
        (failed_row failure (o.attempts + 1)),
  )

  -- What a commit of `mark_outbox_failed` shows of the row that it was called for.
  abbrev pub Settles : List (OutboxRow J) → OutboxRow J → Type 0
  Settles settled o =
      IsHeld auth.workspace_id id lease_token lease_owner now rows o
      × (settled
          ≡ update_where (is_row auth.workspace_id id) (failed_row failure (o.attempts + 1)) rows)

  failed_requires :
      (settled : List (OutboxRow J))
      → mark_outbox_failed auth id failure rows ≡ ok settled
      → (lease_owner ≡ auth.actor_id)
        × ((o : OutboxRow J) × IsHeld auth.workspace_id id lease_token lease_owner now rows o)
  unfolding mark_outbox_failed
  failed_requires settled h =
      elim (Option-cases (fetch_lease_for_update auth.workspace_id id rows)) [
        | inl e ↦ ground arith
        | inr (o, e) ↦ (
          ground arith,
          (o, (e, ground (arith, find-holds (is_row auth.workspace_id id) rows e))),
        )
      ]

  -- An error text that breaks the CHECK of the column makes the whole transaction fail.
  pub failed_refused :
      (o : OutboxRow J)
      → IsHeld auth.workspace_id id lease_token lease_owner now rows o
      → lease_owner ≡ auth.actor_id
      → last_error_too_long error_message ≡ true
      → mark_outbox_failed auth id failure rows ≡ err (sqlx check_violation)
  unfolding mark_outbox_failed execute_update fetch_lease_for_update
  failed_refused o h own long = ground (
    arith,
    held_valid auth.workspace_id id lease_token lease_owner now rows distinct o h,
    any-found row_id id (is_row auth.workspace_id id)
        (holds_lease auth.workspace_id id lease_token lease_owner now)
        (is_row-id auth.workspace_id id lease_token lease_owner now)
        (holds_lease-is_row auth.workspace_id id lease_token lease_owner now) rows o h.0 h.1,
  )

  -- Of distinct rows, `mark_outbox_failed` commits exactly if the caller names itself as the owner,
  -- holds the lease of the row, and the error text fits its column; it then counts one more attempt
  -- on that row, which fails or is dead-lettered, and changes no other.
  pub mark_outbox_failed-eq-ok :
      (settled : List (OutboxRow J))
      → (mark_outbox_failed auth id failure rows ≡ ok settled) ↔ (
          (lease_owner ≡ auth.actor_id)
          × (last_error_too_long error_message ≡ false)
          × ((o : OutboxRow J) × Settles settled o))
  mark_outbox_failed-eq-ok settled =
      (forward, λ h. failed_commits h.2.0 h.0 h.2.1.0 h.1 ∙ ap ok (sym h.2.1.1))
    where
      forward :
          mark_outbox_failed auth id failure rows ≡ ok settled
          → (lease_owner ≡ auth.actor_id)
            × (last_error_too_long error_message ≡ false)
            × ((o : OutboxRow J) × Settles settled o)
      forward h =
          let r = failed_requires settled h in
          let (o, held) = r.1 in
          elim (Bool-cases (last_error_too_long error_message)) [
            | inl long ↦ absurd (ground (arith, failed_refused o held r.0 long))
            | inr short ↦ (r.0, short, (o, (held, ground (arith, failed_commits o r.0 held short))))
          ]
