-- ===== src/Worker/Service/Cycle.antt =====
-- From the lease to the settled batch: run_tenant_cycle of
-- crates/dandori-app-services/src/worker/service.rs up to its clean-ups.
use mathlib.Core.List.{Memᴰ}
use dandori.Base.{
  ℕ, ◌+◌, ◌<◌, ◌≡◌, ◌≢◌, ◌⊎◌, refl, subst, sym, ap, ◌∙◌, Bool, true, false, some, List, [], ◌∷◌,
  ◌==◌, keep, map, All, All-mono, Bool-cases, inl, inr, err, arith, find, ==_refl,
}
use dandori.Domain.Ids.{Uuid}
use dandori.Domain.Auth.{AuthContext}
use dandori.Store.Schema.{OutboxRow}
use dandori.Store.Table.Laws.{Distinct}
use dandori.Store.Outbox.Defs.{OutboxMessage, row_id, row_at}
use dandori.Store.Outbox.Lease.{lease_outbox_batch, lease_row, message_of, is_chosen}
use dandori.Store.Outbox.Lease.Laws.{lease-row_at}
use dandori.Store.Outbox.Lease.Exclusive.{lease-Distinct}
use dandori.Store.Outbox.Mark.{holds_lease, last_error_too_long}
use dandori.Worker.Config.{OutboxWorkerConfig, WorkerRunReport}
use dandori.Worker.Publish.{PublishError}
use dandori.Worker.Service.{Completion, failure_context, process_leased}
use dandori.Worker.Service.Batch.{completed_id, IsSettleable, IsSettled, process_leased-IsSettled}

pub Mem_cons : {A : Type 0} {a b : A} {l : List A} → Memᴰ a (b ∷ l) → (a ≡ b) ⊎ Memᴰ a l
Mem_cons (Memᴰ.head e) = inl e
Mem_cons (Memᴰ.tail m) = inr m

-- What an element of the image of a filtered list comes from.
Mem-map-keep :
    {A B : Type 0} (f : A → B) (p : A → Bool) (xs : List A) (b : B)
    → Memᴰ b (map f (keep p xs))
    → (a : A) × Memᴰ a xs × (p a ≡ true) × (b ≡ f a)
unfolding keep
Mem-map-keep f p [] b h = elim h [ ]
Mem-map-keep {A = A} f p (x ∷ xs) b h = elim (Bool-cases (p x)) [
  | inr fails ↦
      let same : keep p (x ∷ xs) ≡ keep p xs = ground arith in
      let (a, m, t, e) = Mem-map-keep f p xs b (subst (λ ys. Memᴰ b (map f ys)) same h) in
      (a, Memᴰ.tail m, t, e)
  | inl holds ↦
      let same : keep p (x ∷ xs) ≡ x ∷ keep p xs = ground arith in
      elim (Mem_cons (subst (λ ys. Memᴰ b (map f ys)) same h)) [
        | inl e ↦ (x, Memᴰ.head refl, holds, e)
        | inr m ↦ let (a, there, t, e) = Mem-map-keep f p xs b m in (a, Memᴰ.tail there, t, e)
      ]
]

pub All-Mem : {A : Type 0} (P : A → Type 0) (xs : List A) (a : A) → All P xs → Memᴰ a xs → P a
All-Mem P [] a h m = elim m [ ]
All-Mem P (x ∷ xs) a h (Memᴰ.head e) = subst P (sym e) h.0
All-Mem P (x ∷ xs) a h (Memᴰ.tail m) = All-Mem P xs a h.1 m

-- With distinct keys an element is what its key finds.
find-Mem :
    {A : Type 0} (key : A → ℕ) (xs : List A) (a : A)
    → Distinct key xs
    → Memᴰ a xs
    → find (λ y. key y == key a) xs ≡ some a
unfolding find
find-Mem key [] a d m = elim m [ ]
find-Mem key (x ∷ xs) a d (Memᴰ.head e) = rw e (ground (arith, ==_refl (key x)))
find-Mem key (x ∷ xs) a d (Memᴰ.tail m) =
    ground (arith, All-Mem (λ y. key y ≢ key x) xs a d.0 m, find-Mem key xs a d.1 m)

module _ {J : Type 0} (config : OutboxWorkerConfig) (auth : AuthContext) (locked : Uuid → Bool)
    (now lease_for max_items token : ℕ) (rows : List (OutboxRow J))
    (distinct : Distinct row_id rows) where
  abbrev pub leased_rows : List (OutboxRow J)
  leased_rows = (lease_outbox_batch locked auth now lease_for max_items token rows).0

  -- The publication of a leased message that has ended before its lease runs out, with a text that
  -- fits its column if it has failed.
  pub record IsInTime (c : Completion J) : Type 0 where
    pub returned :
        Memᴰ c.message (lease_outbox_batch locked auth now lease_for max_items token rows).1
    pub in_time : c.now < now + lease_for
    pub fits :
        (error : PublishError)
        → c.outcome ≡ err error
        → last_error_too_long (failure_context config c error).error_message ≡ false

  abbrev Holds : ℕ → OutboxRow J → OutboxMessage J → Type 0
  Holds later o m =
      holds_lease auth.workspace_id m.id m.lease_token m.lease_owner later
        (lease_row now (now + lease_for) token auth.actor_id o)
      ≡ true

  leased_held :
      (o : OutboxRow J) (later : ℕ)
      → is_chosen locked auth now max_items rows o ≡ true
      → later < now + lease_for
      → Holds later o (message_of (now + lease_for) token auth.actor_id o)
  unfolding is_chosen holds_lease lease_row message_of
  leased_held o later chosen early = ground arith

  -- A returned message is that of a row, which the lease has given to the worker.
  pub leased_message :
      (m : OutboxMessage J)
      → Memᴰ m (lease_outbox_batch locked auth now lease_for max_items token rows).1
      → (o : OutboxRow J) × (m ≡ message_of (now + lease_for) token auth.actor_id o)
        × (is_chosen locked auth now max_items rows o ≡ true)
        × (row_at o.id rows ≡ some o)
        × (row_at o.id leased_rows ≡ some (lease_row now (now + lease_for) token auth.actor_id o))
  unfolding lease_outbox_batch
  leased_message m h =
      let (o, there, chosen, e) =
        Mem-map-keep (message_of (now + lease_for) token auth.actor_id)
          (is_chosen locked auth now max_items rows) rows m h in
      let found = find-Mem row_id rows o distinct there in
      let (free, said, at) =
        lease-row_at locked auth now lease_for max_items token rows distinct o.id o found in
      (o, e, chosen, found, at ∙ rw chosen refl)

  leased-IsSettleable : (c : Completion J) → IsInTime c → IsSettleable config auth leased_rows c
  unfolding message_of
  leased-IsSettleable c h =
      let (o, e, chosen, found, at) = leased_message c.message h.returned in
      record {
        own = ap (λ m. m.lease_owner) e;
        row = lease_row now (now + lease_for) token auth.actor_id o;
        found = ap (λ m. row_at m.id leased_rows) e ∙ at;
        held = subst (Holds c.now o) (sym e) (leased_held o c.now chosen h.in_time);
        fits = h.fits;
      }

  -- If the publications of leased messages, each once, have ended before the lease runs out, and
  -- the texts of the failures fit, then the whole batch is settled: nothing fails, each message is
  -- counted once, its row is delivered or failed as the publisher has answered, and all other rows
  -- are as the lease has left them.
  pub lease_outbox_batch-IsSettled :
      (correlation : Uuid) (cs : List (Completion J)) (before : WorkerRunReport)
      → Distinct completed_id cs
      → All IsInTime cs
      → IsSettled config auth cs leased_rows before
          (process_leased config auth correlation cs leased_rows before)
  lease_outbox_batch-IsSettled correlation cs before apart h =
      process_leased-IsSettled config auth correlation cs leased_rows before
        (lease-Distinct locked auth now lease_for max_items token rows distinct) apart
        (All-mono leased-IsSettleable cs h)
