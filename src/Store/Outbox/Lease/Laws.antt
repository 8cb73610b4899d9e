-- ===== src/Store/Outbox/Lease/Laws.antt =====
-- Which rows `lease_outbox_batch` takes, and in what order.
use mathlib.Core.List.{[], ◌∷◌}
use dandori.Base.{
  ℕ, ◌+◌, ◌≡◌, ◌≤◌, refl, sym, ◌∙◌, Bool, true, false, not, ◌&&◌, some, List, map, arith, ◌==◌,
  length-map, length-take-le, ==_iff, keep, find, any, take, length, All, All-mono, count_if,
  if◌then◌else◌,
}
use dandori.Domain.Ids.{Uuid, Instant}
use dandori.Domain.Auth.{AuthContext}
use dandori.Store.Schema.{OutboxRow}
use dandori.Store.Table.{sort_by, contains}
use dandori.Store.Table.Laws.{Distinct, Distinct-keep, find-holds}
use dandori.Store.Table.Keys.{
  any-take, any-sort_by, any-keep, contains-map, any_of_key, find-update_where, count-contains,
  count-keep, count-le, any_weaken, any_and,
}
use dandori.Store.Table.Order.{Sorted-sort_by, take-Sorted, find-sort_by, find-keep}
use dandori.Store.Outbox.Defs.{OutboxMessage, row_id, row_at}
use dandori.Store.Outbox.Lease.{
  can_lease, due_before, lease_row, message_of, candidates, is_chosen, lease_outbox_batch,
}

module _ {J : Type 0} (locked : Uuid → Bool) (auth : AuthContext) (now : Instant)
    (max_items : ℕ) where
  -- The rows that the query may take: due in the tenant, and held by no other transaction.
  abbrev pub is_free : OutboxRow J → Bool
  is_free o = can_lease auth.workspace_id now o && not (locked o.id)

  abbrev batch : List (OutboxRow J) → List (OutboxRow J)
  batch rows = take max_items (sort_by due_before (keep is_free rows))

  contains-candidates :
      (k : Uuid) (rows : List (OutboxRow J))
      → contains k (candidates locked auth.workspace_id now max_items rows)
        ≡ any (λ o. row_id o == k) (batch rows)
  unfolding candidates
  contains-candidates k rows = contains-map row_id k (batch rows)

  module _ (rows : List (OutboxRow J)) (distinct : Distinct row_id rows) where
    module _ (k : Uuid) (o : OutboxRow J) (found : row_at k rows ≡ some o) where
      id_of : row_id o ≡ k
      id_of = (==_iff (row_id o) k).0 (find-holds (λ r. row_id r == k) rows found)

      in_batch-is_free : any (λ r. row_id r == k) (batch rows) ≡ true → is_free o ≡ true
      in_batch-is_free b =
          sym (any_of_key row_id is_free k rows o distinct found)
          ∙ sym (any-keep (λ r. row_id r == k) is_free rows)
          ∙ sym (any-sort_by (λ r. row_id r == k) due_before (keep is_free rows))
          ∙ any-take (λ r. row_id r == k) max_items (sort_by due_before (keep is_free rows)) b

      -- A row is chosen exactly if it is free and its id is in the batch.
      is_chosen-eq :
          is_chosen locked auth now max_items rows o
          ≡ (is_free o && any (λ r. row_id r == k) (batch rows))
      unfolding is_chosen can_lease
      is_chosen-eq = ground (arith, id_of, contains-candidates k rows, in_batch-is_free)

      free-batch :
          is_free o ≡ true
          → find (λ r. row_id r == k) (sort_by due_before (keep is_free rows)) ≡ some o
      free-batch t =
          find-sort_by row_id due_before k (keep is_free rows)
            (Distinct-keep row_id is_free rows distinct)
          ∙ find-keep row_id is_free k rows o found t

  due_before_asym : (a b : OutboxRow J) → due_before a b ≡ true → due_before b a ≡ false
  unfolding due_before
  due_before_asym a b h = ground arith

  due_before_trans :
      (a b c : OutboxRow J)
      → due_before b a ≡ false
      → due_before c b ≡ false
      → due_before c a ≡ false
  unfolding due_before
  due_before_trans a b c h k = ground arith

  pub contains-messages :
      (until token owner k : ℕ) (xs : List (OutboxRow J))
      → contains k (map (λ m. m.id) (map (message_of until token owner) xs))
        ≡ any (λ o. row_id o == k) xs
  unfolding contains message_of any
  contains-messages until token owner k [] = refl
  contains-messages until token owner k (x ∷ xs) =
      ground (arith, contains-messages until token owner k xs)

not-true : {b : Bool} → not b ≡ true → b ≡ false
not-true h = ground arith

-- The ids of the messages that a lease returns.
abbrev pub message_ids : {J : Type 0} → List (OutboxMessage J) → List Uuid
message_ids = map (λ m. m.id)

module _ {J : Type 0} (locked : Uuid → Bool) (auth : AuthContext)
    (now lease_for max_items token : ℕ) (rows : List (OutboxRow J))
    (distinct : Distinct row_id rows) where
  -- A lease takes free rows of the tenant only, gives each to the caller under the token until
  -- `now + lease_for`, returns a message under the ids of exactly the rows that it took, and
  -- leaves every other row as it was.
  pub lease-row_at :
      (k : Uuid) (o : OutboxRow J)
      → row_at k rows ≡ some o
      → let (after, messages) = lease_outbox_batch locked auth now lease_for max_items token rows in
        let taken = is_chosen locked auth now max_items rows o in
        (taken ≡ true → is_free locked auth now max_items o ≡ true)
        × (contains k (message_ids messages) ≡ taken)
        × (row_at k after
            ≡ some (if taken then lease_row now (now + lease_for) token auth.actor_id o else o))
  unfolding lease_outbox_batch lease_row
  lease-row_at k o found = (
    (λ t. ground (arith, is_chosen-eq locked auth now max_items rows distinct k o found)),
    contains-messages locked auth now max_items (now + lease_for) token auth.actor_id k
          (keep (is_chosen locked auth now max_items rows) rows)
        ∙ any-keep (λ r. row_id r == k) (is_chosen locked auth now max_items rows) rows
        ∙ any_of_key row_id (is_chosen locked auth now max_items rows) k rows o distinct found,
    find-update_where row_id (is_chosen locked auth now max_items rows)
        (lease_row now (now + lease_for) token auth.actor_id) k rows o (λ a. refl) found,
  )

  chosen-in_candidates :
      count_if (is_chosen locked auth now max_items rows) rows
      ≤ count_if
          (λ o. contains (row_id o) (candidates locked auth.workspace_id now max_items rows))
          rows
  unfolding is_chosen
  chosen-in_candidates = count-le _ _ (λ o h. ground arith) rows

  length-candidates : length (candidates locked auth.workspace_id now max_items rows) ≤ max_items
  unfolding candidates
  length-candidates =
      rw (length-map row_id (batch locked auth now max_items rows)) (length-take-le max_items _)

  -- A lease returns at most `max_items` messages.
  lease-length-le :
      length (lease_outbox_batch locked auth now lease_for max_items token rows).1 ≤ max_items
  unfolding lease_outbox_batch
  lease-length-le = omega (
    arith,
    length-map (message_of (now + lease_for) token auth.actor_id)
        (keep (is_chosen locked auth now max_items rows) rows),
    count-keep (is_chosen locked auth now max_items rows) rows,
    chosen-in_candidates,
    count-contains row_id (candidates locked auth.workspace_id now max_items rows) rows distinct,
    length-candidates,
  )

  left_out :
      (k : Uuid) (o : OutboxRow J)
      → row_at k rows ≡ some o
      → is_free locked auth now max_items o ≡ true
      → is_chosen locked auth now max_items rows o ≡ false
      → let kept = batch locked auth now max_items rows in
        (length kept ≡ max_items) × All (λ c. due_before o c ≡ false) kept
  left_out k o found free left =
      take-Sorted due_before (λ r. row_id r == k) max_items
        (sort_by due_before (keep (is_free locked auth now max_items) rows)) o
        (Sorted-sort_by (due_before {J = J}) (due_before_asym locked auth now max_items)
          (due_before_trans locked auth now max_items)
          (keep (is_free locked auth now max_items) rows))
        (free-batch locked auth now max_items rows distinct k o found free)
        (ground (arith, is_chosen-eq locked auth now max_items rows distinct k o found))

  -- What all rows of the batch have, the row of each id in the batch has.
  batch-property :
      (p : OutboxRow J → Bool) (j : Uuid) (c : OutboxRow J)
      → row_at j rows ≡ some c
      → All (λ r. p r ≡ true) (batch locked auth now max_items rows)
      → any (λ r. row_id r == j) (batch locked auth now max_items rows) ≡ true
      → p c ≡ true
  batch-property p j c found all b =
      let sorted = sort_by due_before (keep (is_free locked auth now max_items) rows) in
      let both = λ (r : OutboxRow J). p r && row_id r == j in
      sym (any_of_key row_id p j rows c distinct found)
      ∙ any_weaken (λ r. is_free locked auth now max_items r && both r) both (λ a h. ground arith)
          rows
          (sym (any-keep both (is_free locked auth now max_items) rows)
            ∙ sym (any-sort_by both due_before (keep (is_free locked auth now max_items) rows))
            ∙ any-take both max_items sorted
                (any_and p (λ r. row_id r == j) (batch locked auth now max_items rows) all b))

  -- The oldest first: if a free row is left out, the limit is used up, and no row that is taken
  -- stands behind it in the order of `available_at` and `id`.
  pub lease_oldest_first :
      (k : Uuid) (o : OutboxRow J)
      → row_at k rows ≡ some o
      → is_free locked auth now max_items o ≡ true
      → is_chosen locked auth now max_items rows o ≡ false
      → (length (candidates locked auth.workspace_id now max_items rows) ≡ max_items)
        × ((j : Uuid) (c : OutboxRow J)
            → row_at j rows ≡ some c
            → is_chosen locked auth now max_items rows c ≡ true
            → due_before o c ≡ false)
  unfolding candidates
  lease_oldest_first k o found free left =
      let (full, behind) = left_out k o found free left in
      (
        length-map row_id (batch locked auth now max_items rows) ∙ full,
        λ j c at chosen. not-true (
            batch-property (λ r. not (due_before o r)) j c at
              (All-mono (λ r e. rw e) (batch locked auth now max_items rows) behind)
              (ground (arith, is_chosen-eq locked auth now max_items rows distinct j c at))),
      )
