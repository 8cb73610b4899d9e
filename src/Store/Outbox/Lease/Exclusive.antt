-- ===== src/Store/Outbox/Lease/Exclusive.antt =====
-- What a lease leaves behind: distinct ids, and a row for each message.
use dandori.Base.{
  ℕ, Bool, ◌+◌, ◌≡◌, true, some, refl, List, arith, ◌==◌, Option-cases, inl, inr, keep,
}
use dandori.Domain.Ids.{Uuid}
use dandori.Domain.Auth.{AuthContext}
use dandori.Store.Schema.{OutboxRow}
use dandori.Store.Table.{contains}
use dandori.Store.Table.Laws.{Distinct, Distinct-update_where}
use dandori.Store.Table.Keys.{any-keep, any_of_no_key}
use dandori.Store.Outbox.Defs.{row_id, row_at}
use dandori.Store.Outbox.Lease.{is_chosen, lease_row, lease_outbox_batch}
use dandori.Store.Outbox.Lease.Laws.{message_ids, contains-messages}

module _ {J : Type 0} (locked : Uuid → Bool) (auth : AuthContext)
    (now lease_for max_items token : ℕ) (rows : List (OutboxRow J))
    (distinct : Distinct row_id rows) where
  pub lease-Distinct :
      Distinct row_id (lease_outbox_batch locked auth now lease_for max_items token rows).0
  unfolding lease_outbox_batch lease_row
  lease-Distinct =
      Distinct-update_where row_id _ (λ a. refl) (is_chosen locked auth now max_items rows) rows
        distinct

  -- A message stands for a row.
  pub leased_row :
      (k : Uuid)
      → contains k
          (message_ids (lease_outbox_batch locked auth now lease_for max_items token rows).1)
        ≡ true
      → (o : OutboxRow J) × (row_at k rows ≡ some o)
  unfolding lease_outbox_batch
  leased_row k h = elim (Option-cases (row_at k rows)) [
    | inr found ↦ found
    | inl none_at ↦ absurd (
        ground (
          arith,
          contains-messages locked auth now max_items (now + lease_for) token auth.actor_id k
              (keep (is_chosen locked auth now max_items rows) rows),
          any-keep (λ r. row_id r == k) (is_chosen locked auth now max_items rows) rows,
          any_of_no_key row_id (is_chosen locked auth now max_items rows) k rows none_at,
        ))
  ]
