-- ===== src/Store/Outbox/Lease/Contents.antt =====
-- What a lease does, row by row and message by message:
-- crates/dandori-store/src/repositories/outbox.rs.
use mathlib.Core.List.{[], ◌∷◌}
use dandori.Base.{
  ℕ, ◌+◌, ◌≡◌, ◌≤◌, ◌≢◌, ◌⊎◌, ◌∙◌, inl, inr, refl, sym, subst, Bool, true, false, ◌&&◌, ◌||◌, leb,
  Option, none, some, List, map, arith, ◌==◌, ==_iff, keep, find, All, if◌then◌else◌, Bool-cases,
  Option-cases,
}
use dandori.Domain.Ids.{Uuid, Instant}
use dandori.Domain.Auth.{AuthContext}
use dandori.Store.Schema.{OutboxRow, OutboxStatus, pending, leased, failed, delivered, dead_letter}
use dandori.Store.Table.Laws.{Distinct, Distinct-keep, find-holds}
use dandori.Store.Table.Keys.{find-update_none}
use dandori.Store.Outbox.Defs.{OutboxMessage, row_id, row_at, is_waiting, is_leased, is_at_most}
use dandori.Store.Outbox.Lease.{can_lease, lease_row, message_of, is_chosen, lease_outbox_batch}
use dandori.Store.Outbox.Lease.Laws.{lease-row_at}

module _ {A B : Type 0} (key : A → ℕ) (key_2 : B → ℕ) (f : A → B)
    (same : (a : A) → key_2 (f a) ≡ key a) where
  All-map : (k : ℕ) (xs : List A) → All (λ x. key x ≢ k) xs → All (λ y. key_2 y ≢ k) (map f xs)
  All-map k [] h = tt
  All-map k (x ∷ xs) h = (rw (same x) h.0, All-map k xs h.1)

  Distinct-map : (xs : List A) → Distinct key xs → Distinct key_2 (map f xs)
  Distinct-map [] d = tt
  Distinct-map (x ∷ xs) d = (rw (same x) (All-map (key x) xs d.0), Distinct-map xs d.1)

  find-map_absent :
      (p : A → Bool) (k : ℕ) (xs : List A)
      → All (λ x. key x ≢ k) xs
      → find (λ y. key_2 y == k) (map f (keep p xs)) ≡ none
  unfolding find keep
  find-map_absent p k [] h = refl
  find-map_absent p k (x ∷ xs) h = ground (arith, same x, h.0, find-map_absent p k xs h.1)

  find-map-none :
      (p : A → Bool) (k : ℕ) (xs : List A)
      → find (λ x. key x == k) xs ≡ none
      → find (λ y. key_2 y == k) (map f (keep p xs)) ≡ none
  unfolding find keep
  find-map-none p k [] h = refl
  find-map-none p k (x ∷ xs) h = ground (arith, same x, find-map-none p k xs)

  find-map-keep :
      (p : A → Bool) (k : ℕ) (xs : List A) (x : A)
      → Distinct key xs
      → find (λ a. key a == k) xs ≡ some x
      → find (λ y. key_2 y == k) (map f (keep p xs)) ≡ (if p x then some (f x) else none)
  unfolding find keep
  find-map-keep p k [] x d h = absurd (ground arith)
  find-map-keep p k (y ∷ ys) x d h = elim (Bool-cases (key y == k)) [
    | inl e ↦ ground (
      arith,
      same y,
      find-map_absent p k ys (subst (λ n. All (λ z. key z ≢ n) ys) ((==_iff (key y) k).0 e) d.0),
    )
    | inr e ↦ ground (arith, same y, find-map-keep p k ys x d.1)
  ]

-- A row that the tenant may lease: it waits or has failed, and is due, or its lease has run out.
abbrev pub IsDue : {J : Type 0} → Uuid → Instant → OutboxRow J → Type 0
IsDue ws now o =
    (o.workspace_id ≡ ws)
    × ((((o.status ≡ pending) ⊎ (o.status ≡ failed)) × (o.available_at ≤ now))
        ⊎ ((o.status ≡ leased) × ((until : ℕ) × (o.leased_until ≡ some until) × (until ≤ now))))

due_cases :
    (s : OutboxStatus) (until : Option ℕ) (at now : ℕ)
    → (is_waiting s && leb at now || is_leased s && is_at_most until now) ≡ true
    → (((s ≡ pending) ⊎ (s ≡ failed)) × (at ≤ now))
      ⊎ ((s ≡ leased) × ((t : ℕ) × (until ≡ some t) × (t ≤ now)))
due_cases pending until at now h = inl (inl refl, ground arith)
due_cases failed until at now h = inl (inr refl, ground arith)
due_cases leased (some t) at now h = inr (refl, (t, refl, ground arith))
due_cases leased none at now h = absurd (ground arith)
due_cases delivered until at now h = absurd (ground arith)
due_cases dead_letter until at now h = absurd (ground arith)

can_lease-IsDue :
    {J : Type 0} (ws : Uuid) (now : Instant) (o : OutboxRow J)
    → can_lease ws now o ≡ true
    → IsDue ws now o
unfolding can_lease
can_lease-IsDue ws now o h =
    (ground arith, due_cases o.status o.leased_until o.available_at now (ground arith))

-- The message that describes a row under a lease.
pub record Describes {J : Type 0} (until token owner : ℕ) (o : OutboxRow J) (m : OutboxMessage J)
    : Type 0 where
  pub id : m.id ≡ o.id
  pub workspace_id : m.workspace_id ≡ o.workspace_id
  pub event_id : m.event_id ≡ o.event_id
  pub event_type : m.event_type ≡ o.event_type
  pub aggregate_type : m.aggregate_type ≡ o.aggregate_type
  pub aggregate_id : m.aggregate_id ≡ o.aggregate_id
  pub correlation_id : m.correlation_id ≡ o.correlation_id
  pub payload : m.payload ≡ o.payload
  pub attempts : m.attempts ≡ o.attempts
  pub lease_token : m.lease_token ≡ token
  pub lease_owner : m.lease_owner ≡ owner
  pub leased_until : m.leased_until ≡ until

-- A row that has been taken: it was due and locked by no other transaction, it is now leased to the
-- worker under the token and otherwise as it was, and one message describes it.
pub record Takes {J : Type 0} (locked : Uuid → Bool) (auth : AuthContext) (now until token : ℕ)
    (k : Uuid) (before after : List (OutboxRow J)) (messages : List (OutboxMessage J))
    : Type 0 where
  pub row : OutboxRow J
  pub message : OutboxMessage J
  pub row_before : row_at k before ≡ some row
  pub due : IsDue auth.workspace_id now row
  pub unlocked : locked k ≡ false
  pub row_after :
      row_at k after
      ≡ some (record row {
        status = leased;
        leased_at = some now;
        leased_until = some until;
        lease_token = some token;
        lease_owner = some auth.actor_id;
        updated_at = now;
      })
  pub message_at : find (λ m. m.id == k) messages ≡ some message
  pub describes : Describes until token auth.actor_id row message

module _ {J : Type 0} (locked : Uuid → Bool) (auth : AuthContext)
    (now lease_for max_items token : ℕ) (rows : List (OutboxRow J))
    (distinct : Distinct row_id rows) where
  taken :
      (k : Uuid) (o : OutboxRow J)
      → row_at k rows ≡ some o
      → is_chosen locked auth now max_items rows o ≡ true
      → let (after, messages) = lease_outbox_batch locked auth now lease_for max_items token rows in
        Takes locked auth now (now + lease_for) token k rows after messages
  unfolding lease_outbox_batch lease_row message_of
  taken k o found chosen =
      let (free, said, at) =
        lease-row_at locked auth now lease_for max_items token rows distinct k o found in
      let f = free chosen in
      let own =
        (==_iff (row_id o) k).0 (find-holds (λ (r : OutboxRow J). row_id r == k) rows found) in
      record {
        row = o;
        message = message_of (now + lease_for) token auth.actor_id o;
        row_before = found;
        due = can_lease-IsDue auth.workspace_id now o (ground arith);
        unlocked = subst (λ j. locked j ≡ false) own (ground arith);
        row_after = ground arith;
        message_at =
            find-map-keep row_id (λ m. m.id) (message_of (now + lease_for) token auth.actor_id)
              (λ a. refl) (is_chosen locked auth now max_items rows) k rows o distinct found
            ∙ rw chosen refl;
        describes = record {
          id = refl;
          workspace_id = refl;
          event_id = refl;
          event_type = refl;
          aggregate_type = refl;
          aggregate_id = refl;
          correlation_id = refl;
          payload = refl;
          attempts = refl;
          lease_token = refl;
          lease_owner = refl;
          leased_until = refl;
        };
      }

  -- Of distinct rows: the messages that a lease returns are of distinct rows. Under each id, either
  -- a row has been taken, which was due in the tenant and locked by no other transaction, is now
  -- leased to the caller under the token until `now + lease_for` and otherwise as it was, and is
  -- described by the message under its id; or there is no message, and the row, if there is one, is
  -- as it was.
  pub lease_outbox_batch-Takes :
      (k : Uuid)
      → let (after, messages) = lease_outbox_batch locked auth now lease_for max_items token rows in
        Distinct (λ m. m.id) messages
        × (Takes locked auth now (now + lease_for) token k rows after messages
            ⊎ ((find (λ m. m.id == k) messages ≡ none) × (row_at k after ≡ row_at k rows)))
  unfolding lease_outbox_batch lease_row message_of
  lease_outbox_batch-Takes k =
      let chosen = is_chosen locked auth now max_items rows in
      let f = message_of (now + lease_for) token auth.actor_id in
      (
        Distinct-map row_id (λ m. m.id) f (λ a. refl) (keep chosen rows)
            (Distinct-keep row_id chosen rows distinct),
        elim (Option-cases (row_at k rows)) [
          | inl missing ↦ inr (
            find-map-none row_id (λ m. m.id) f (λ a. refl) chosen k rows missing,
            find-update_none row_id chosen (lease_row now (now + lease_for) token auth.actor_id) k
                  rows (λ a. refl) missing
                ∙ sym missing,
          )
          | inr (o, found) ↦ elim (Bool-cases (chosen o)) [
            | inl t ↦ inl (taken k o found t)
            | inr t ↦
                let (free, said, at) =
                  lease-row_at locked auth now lease_for max_items token rows distinct k o found in
                inr (
                  find-map-keep row_id (λ m. m.id) f (λ a. refl) chosen k rows o distinct found
                      ∙ rw t refl,
                  ground (arith, at, found),
                )
          ]
        ],
      )
