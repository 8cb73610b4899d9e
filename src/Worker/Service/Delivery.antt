-- ===== src/Worker/Service/Delivery.antt =====
-- From a new event to its delivery: crates/dandori-app-services/src/worker/service.rs over what
-- crates/dandori-store/src/repositories/issue.rs has written.
use mathlib.Core.List.{Memᴰ}
use dandori.Base.{
  ℕ, Bool, ◌+◌, ◌≡◌, ◌≢◌, refl, subst, sym, ap, ◌∙◌, String, Option, none, some, List, [], ◌∷◌, map,
  ==_refl, All, Result, Outcome, ok, arith,
}
use dandori.Domain.Ids.{Uuid, Instant}
use dandori.Domain.Auth.{AuthContext}
use dandori.Domain.Command.{CreateIssueCommandV1}
use dandori.Domain.Event.{IssueCreatedEventV1}
use dandori.Store.Schema.{Db, OutboxRow}
use dandori.Store.Table.Laws.{Distinct}
use dandori.Store.Issue.Insert.{insert_outbox}
use dandori.Store.Outbox.Defs.{OutboxMessage, row_id, row_at}
use dandori.Store.Outbox.Lease.{lease_row, message_of}
use dandori.Store.Outbox.Mark.{delivered_row}
use dandori.Worker.Config.{OutboxWorkerConfig, WorkerRunReport}
use dandori.Worker.Publish.{PublishError}
use dandori.Worker.Registry.{dispatch}
use dandori.Worker.Handlers.{OutboxPublisher, default_registry, dispatch-inserted}
use dandori.Worker.Service.{Completion, process_leased}
use dandori.Worker.Service.Batch.{completed_id, settle, row_after}
use dandori.Worker.Service.Cycle.{
  All-Mem, leased_rows, IsInTime, leased_message, lease_outbox_batch-IsSettled,
}

-- A publication that has ended: of which message, when its row is marked, and what the random
-- generator gives for a retry. Their order is that in which they have ended.
pub record Ended (J : Type 0) : Type 0 where
  pub message : OutboxMessage J
  pub now : Instant
  pub random : ℕ

module _ {J : Type 0} where
  -- The outcome of a publication is what the registry makes of the message.
  unfoldable pub complete : (OutboxMessage J → Outcome PublishError) → Ended J → Completion J
  complete publish e = record {
    message = e.message;
    outcome = publish e.message;
    now = e.now;
    random = e.random;
  }

  row_after-Mem :
      (config : OutboxWorkerConfig) (k : Uuid) (cs : List (Completion J)) (c : Completion J)
      (o : OutboxRow J)
      → Distinct completed_id cs
      → Memᴰ c cs
      → completed_id c ≡ k
      → row_after config k cs o ≡ settle config c o.attempts o
  unfolding row_after
  row_after-Mem config k [] c o d m e = elim m [ ]
  row_after-Mem config k (x ∷ xs) c o d (Memᴰ.head same) e = rw (sym same, e, ==_refl k) refl
  row_after-Mem config k (x ∷ xs) c o d (Memᴰ.tail m) e = ground (
    arith,
    All-Mem (λ y. completed_id y ≢ completed_id x) xs c d.0 m,
    row_after-Mem config k xs c o d.1 m e,
    e,
  )

  settle-delivered :
      (config : OutboxWorkerConfig) (c : Completion J) (n : ℕ) (o : OutboxRow J)
      → c.outcome ≡ ok tt
      → settle config c n o ≡ delivered_row c.now o
  unfolding settle
  settle-delivered config c n o e = rw e refl

module _ {J : Type 0} (read_event : J → Result IssueCreatedEventV1 String) (get_u64 : J → Option ℕ)
    (publisher : OutboxPublisher J) where
  -- The worker's publication of a message, through its registry.
  abbrev pub publish : OutboxMessage J → Outcome PublishError
  publish = dispatch get_u64 (default_registry read_event publisher)

  -- If a new issue's event has been inserted into an outbox with distinct ids and its payload reads
  -- back as that event, without a field schema_version, and a later lease returns its message, the
  -- publications of the batch, one for each message, end before the lease runs out, the texts of
  -- all failures of the batch fit their column, and the publisher takes the event, then at the end
  -- of the batch the row of the event is delivered.
  pub insert_outbox-delivered :
      (event_value : IssueCreatedEventV1 → Result J String) (tenant : Uuid)
      (c : CreateIssueCommandV1) (event : IssueCreatedEventV1) (id : Uuid) (at : ℕ)
      (db after : Db J) (payload : J)
      → insert_outbox event_value tenant c event id at db ≡ ok after
      → event_value event ≡ ok payload
      → read_event payload ≡ ok event
      → get_u64 payload ≡ none
      → (config : OutboxWorkerConfig) (auth : AuthContext) (locked : Uuid → Bool)
        (now lease_for max_items token correlation : ℕ) (distinct : Distinct row_id after.outbox)
        (ended : List (Ended J)) (before : WorkerRunReport)
      → Distinct completed_id (map (complete publish) ended)
      → All
          (IsInTime config auth locked now lease_for max_items token after.outbox distinct)
          (map (complete publish) ended)
      → (e : Ended J) → Memᴰ (complete publish e) (map (complete publish) ended)
      → e.message.id ≡ id
      → publisher.publish_issue_created e.message event ≡ ok tt
      → (o : OutboxRow J) × (row_at id after.outbox ≡ some o)
        × (row_at id
              (process_leased config auth correlation
                (map (complete publish) ended)
                (leased_rows config auth locked now lease_for max_items token after.outbox distinct)
                before).0
            ≡ some (delivered_row e.now (lease_row now (now + lease_for) token auth.actor_id o)))
  unfolding complete message_of
  insert_outbox-delivered event_value tenant c event id at db after payload stored written read
        version config auth locked now lease_for max_items token correlation distinct ended before
        apart timely e there same taken =
      let cs = map (complete publish) ended in
      let h =
        All-Mem (IsInTime config auth locked now lease_for max_items token after.outbox distinct) cs
          (complete publish e) timely there in
      let (o, m, chosen, found, leased) =
        leased_message config auth locked now lease_for max_items token after.outbox distinct
          e.message h.returned in
      let (own, at_id, dispatched) =
        dispatch-inserted read_event publisher event_value get_u64 tenant c event id at
          (now + lease_for) token auth.actor_id db after payload stored written read version in
      let settled =
        lease_outbox_batch-IsSettled config auth locked now lease_for max_items token after.outbox
          distinct correlation cs before apart timely in
      let same_id : o.id ≡ id = sym (ap (λ n. n.id) m) ∙ same in
      let at_o : row_at id after.outbox ≡ some o =
        subst (λ k. row_at k after.outbox ≡ some o) same_id found in
      let same_row : own ≡ o = ground (arith, at_id, at_o) in
      let taken_row : publish (message_of (now + lease_for) token auth.actor_id o) ≡ ok tt =
        subst
          (λ r.
            publish (message_of (now + lease_for) token auth.actor_id r)
            ≡ publisher.publish_issue_created (message_of (now + lease_for) token auth.actor_id r)
                event)
          same_row dispatched
        ∙ subst (λ n. publisher.publish_issue_created n event ≡ ok tt) m taken in
      let batch =
        leased_rows config auth locked now lease_for max_items token after.outbox distinct in
      let row = lease_row now (now + lease_for) token auth.actor_id o in
      (
        o,
        at_o,
        settled.rows_after id row (subst (λ k. row_at k batch ≡ some row) same_id leased)
            ∙ ap some (
                row_after-Mem config id cs (complete publish e) row apart there same
                ∙ settle-delivered config (complete publish e) row.attempts row
                    (ap publish m ∙ taken_row)),
      )
