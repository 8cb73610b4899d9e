-- ===== src/Worker/Service/Laws.antt =====
-- What a cycle reports.
use dandori.Base.{
  ℕ, ◌+◌, ◌≡◌, ◌≤◌, true, List, [], ◌∷◌, length, ok, err, Result-cases, inl, inr, arith,
}
use dandori.Domain.Ids.{Uuid}
use dandori.Domain.Auth.{AuthContext}
use dandori.Store.Schema.{OutboxRow}
use dandori.Store.Table.Laws.{Distinct}
use dandori.Store.Outbox.Defs.{row_id}
use dandori.Store.Outbox.Mark.{last_error_too_long}
use dandori.Store.Outbox.Mark.Laws.{IsHeld, failed_refused}
use dandori.App.Error.{internal}
use dandori.Worker.Config.{OutboxWorkerConfig, WorkerRunReport}
use dandori.Worker.Publish.{PublishError}
use dandori.Worker.Service.{
  Completion, failure_context, apply_error, apply_publish_outcome, process_leased,
}

-- What one message adds to a report.
abbrev pub Counts : ℕ → WorkerRunReport → WorkerRunReport → Type 0
Counts n before after =
    (after.delivered + after.failed ≡ before.delivered + before.failed + n)
    × (before.failed + after.dead_lettered ≤ after.failed + before.dead_lettered)
    × (after.leased ≡ before.leased)

module _ {J : Type 0} (config : OutboxWorkerConfig) (auth : AuthContext) (correlation : Uuid) where
  apply-Counts :
      (c : Completion J) (rows settled : List (OutboxRow J)) (before after : WorkerRunReport)
      → apply_publish_outcome config auth correlation c rows before ≡ ok (settled, after)
      → Counts 1 before after
  unfolding apply_publish_outcome apply_error
  apply-Counts c rows settled before after h = ground arith

  -- If all messages of a batch have been settled, each has been counted once, as delivered or as
  -- failed, and no more as dead-lettered than as failed.
  pub process_leased-Counts :
      (cs : List (Completion J)) (rows : List (OutboxRow J)) (before after : WorkerRunReport)
      → (process_leased config auth correlation cs rows before).1 ≡ ok after
      → Counts (length cs) before after
  unfolding process_leased
  process_leased-Counts [] rows before after h = ground arith
  process_leased-Counts (c ∷ cs) rows before after h =
      elim (Result-cases (apply_publish_outcome config auth correlation c rows before)) [
        | inr (e, x) ↦ absurd (ground arith)
        | inl ((settled, counted), x) ↦
            let one = apply-Counts c rows settled before counted x in
            let rest = process_leased-Counts cs settled counted after (ground arith) in ground arith
      ]

  -- Where the next message to settle has failed, with a text that does not fit its column, the loop
  -- ends: although the worker holds the lease, no row changes any more.
  pub process_leased-refused :
      (c : Completion J) (error : PublishError) (cs : List (Completion J))
      (rows : List (OutboxRow J)) (o : OutboxRow J) (report : WorkerRunReport)
      → Distinct row_id rows
      → c.outcome ≡ err error
      → c.message.lease_owner ≡ auth.actor_id
      → IsHeld auth.workspace_id c.message.id c.message.lease_token c.message.lease_owner c.now rows
          o
      → last_error_too_long (failure_context config c error).error_message ≡ true
      → process_leased config auth correlation (c ∷ cs) rows report
        ≡ (rows, err (internal "worker_store_failed" correlation))
  unfolding process_leased apply_publish_outcome apply_error failure_context
  process_leased-refused c error cs rows o report d failed own held long = ground (
    arith,
    failed_refused auth c.message.id (failure_context config c error) rows d o held own long,
  )
