-- ===== src/Worker/Service.antt =====
-- crates/dandori-app-services/src/worker/service.rs: one cycle of the worker. What a cycle has
-- changed stays when a later step of it fails, so the tables stand beside the result.
pub mod Batch
pub mod Cycle
pub mod Delivery
pub mod Laws
pub mod Poison
pub mod Steps
use dandori.Base.{
  ℕ, ◌+◌, ◌-◌, ◌*◌, min, max, String, Bool, true, false, not, ◌&&◌, ◌||◌, Option, none, some, List,
  [], ◌∷◌, leb, ltb, ◌==◌, str_eq, if◌then◌else◌, length, is_nil, Result, Outcome, ok, err, map_err,
  ◌>>=◌,
}
use dandori.Base.Text.{append}
use dandori.Domain.Ids.{Uuid, Instant}
use dandori.Domain.Auth.{AuthContext}
use dandori.Store.Schema.{OutboxRow, WorkspaceRow, PartitionLease, Db}
use dandori.Store.Error.{StoreError}
use dandori.Store.Outbox.Defs.{OutboxMessage, OutboxFailureClassification, OutboxFailureContext}
use dandori.Store.Outbox.Defs
use dandori.Store.Outbox.Lease.{lease_outbox_batch}
use dandori.Store.Outbox.Mark.{mark_outbox_delivered, mark_outbox_failed, is_terminal}
use dandori.Store.Outbox.Cleanup.{cleanup_outbox, cleanup_idempotency}
use dandori.Store.Partition.{acquire_partitions, release_partitions}
use dandori.App.Error.{AppServiceError, internal}
use dandori.Worker.Config.{OutboxWorkerConfig, WorkerRunReport, empty_report}
use dandori.Worker.Publish.{PublishErrorKind, PublishError, is_transient, retry_backoff_with_jitter}

-- `{:?}`
abbrev pub kind_name : PublishErrorKind → String
kind_name PublishErrorKind.transient = "Transient"
kind_name PublishErrorKind.permanent = "Permanent"
kind_name PublishErrorKind.unsupported = "Unsupported"
kind_name PublishErrorKind.serialization = "Serialization"

abbrev pub classify : PublishErrorKind → OutboxFailureClassification
classify kind =
    if is_transient kind
    then OutboxFailureClassification.transient
    else OutboxFailureClassification.terminal

-- A message whose publication has ended: with what, when the row is marked, and what the random
-- generator gives for a retry.
pub record Completion (J : Type 0) : Type 0 where
  pub message : OutboxMessage J
  pub outcome : Outcome PublishError
  pub now : Instant
  pub random : ℕ

abbrev pub seconds : ℕ → ℕ
seconds n = n * 1000000

abbrev pub hours : ℕ → ℕ
hours n = n * 3600000000

-- The cause goes to the log; `correlation` is the fresh id of the error.
abbrev pub map_store_worker_error : Uuid → StoreError → AppServiceError
map_store_worker_error correlation error = internal "worker_store_failed" correlation

unfoldable pub failure_context :
    {J : Type 0} → OutboxWorkerConfig → Completion J → PublishError → OutboxFailureContext
unfolding retry_backoff_with_jitter
failure_context config c error = record {
  classification = classify error.kind;
  lease_token = c.message.lease_token;
  lease_owner = c.message.lease_owner;
  now = c.now;
  error_message = append (kind_name error.kind) (append ": " error.message);
  max_attempts = config.max_attempts;
  retry_backoff =
      retry_backoff_with_jitter config.retry_backoff_seconds config.retry_jitter_ms c.random;
}

abbrev pub count_delivered : WorkerRunReport → WorkerRunReport
count_delivered report = record report { delivered = report.delivered + 1 }

abbrev pub count_failed : Bool → WorkerRunReport → WorkerRunReport
count_failed dead report = record report {
  failed = report.failed + 1;
  dead_lettered = if dead then report.dead_lettered + 1 else report.dead_lettered;
}

module _ {J : Type 0} (config : OutboxWorkerConfig) (auth : AuthContext) (correlation : Uuid) where
  unfoldable pub apply_error :
      Completion J
      → PublishError
      → List (OutboxRow J)
      → WorkerRunReport
      → Result (List (OutboxRow J) × WorkerRunReport) AppServiceError
  unfolding failure_context mark_outbox_failed
  apply_error c error rows report = do
    let failure = failure_context config c error
    settled ←
        map_err (map_store_worker_error correlation)
          (mark_outbox_failed auth c.message.id failure rows)
    let terminal = is_terminal failure.classification
    let exhausted = leb config.max_attempts (c.message.attempts + 1)
    ok (settled, count_failed (terminal || exhausted) report)

  unfoldable pub apply_publish_outcome :
      Completion J
      → List (OutboxRow J)
      → WorkerRunReport
      → Result (List (OutboxRow J) × WorkerRunReport) AppServiceError
  unfolding mark_outbox_delivered apply_error
  apply_publish_outcome c rows report = elim c.outcome [
    | ok done ↦ do
      settled ← map_err (map_store_worker_error correlation) (
          mark_outbox_delivered auth c.message.id c.message.lease_token c.message.lease_owner c.now
            rows)
      ok (settled, count_delivered report)
    | err error ↦ apply_error c error rows report
  ]

  -- The loop of `process_leased`, over the messages in the order in which they have ended. The
  -- first error ends it.
  unfoldable pub process_leased :
      List (Completion J)
      → List (OutboxRow J)
      → WorkerRunReport
      → List (OutboxRow J) × Result WorkerRunReport AppServiceError
  unfolding apply_publish_outcome
  process_leased [] rows report = (rows, ok report)
  process_leased (c ∷ cs) rows report = elim (apply_publish_outcome c rows report) [
    | ok (settled, counted) ↦ process_leased cs settled counted
    | err e ↦ (rows, err e)
  ]

-- What surrounds a cycle of a tenant: the rows that others hold, the clock when the batch is leased
-- and when the clean-ups run, the fresh ids, and what the registry and the publisher make of the
-- leased messages, in the order in which they end.
pub record TenantRun (J : Type 0) : Type 0 where
  pub locked : Uuid → Bool
  pub now : Instant
  pub token : Uuid
  pub publish : List (OutboxMessage J) → List (Completion J)
  pub cleaned_at : Instant
  pub correlation : Uuid

module _ {J : Type 0} where
  -- The two clean-ups, which do not fail.
  unfoldable pub clean_up :
      OutboxWorkerConfig → AuthContext → Instant → WorkerRunReport → Db J → Db J × WorkerRunReport
  unfolding cleanup_outbox cleanup_idempotency
  clean_up config auth at report db =
      let rows =
        cleanup_outbox auth (at - hours config.delivered_retention_hours)
          (at - hours config.dead_letter_retention_hours) db.outbox in
      let records =
        cleanup_idempotency auth (at - hours config.idempotency_retention_hours) db.idempotency in
      (
        record db { outbox = rows.0; idempotency = records.0 },
        record report {
          cleaned_outbox_rows = report.cleaned_outbox_rows + rows.1;
          cleaned_idempotency_rows = report.cleaned_idempotency_rows + records.1;
        },
      )

  -- An error of the loop skips the clean-ups.
  unfoldable pub finish_cycle :
      OutboxWorkerConfig
      → AuthContext
      → Instant
      → Db J
      → Result WorkerRunReport AppServiceError
      → Db J × Result WorkerRunReport AppServiceError
  unfolding clean_up
  finish_cycle config auth at settled (err e) = (settled, err e)
  finish_cycle config auth at settled (ok report) =
      let cleaned = clean_up config auth at report settled in (cleaned.0, ok cleaned.1)

  unfoldable pub run_tenant_cycle :
      OutboxWorkerConfig
      → AuthContext
      → TenantRun J
      → Db J
      → Db J × Result WorkerRunReport AppServiceError
  unfolding lease_outbox_batch process_leased finish_cycle
  run_tenant_cycle config auth run db =
      let leased =
        lease_outbox_batch run.locked auth run.now (seconds config.lease_seconds) config.batch_size
          run.token db.outbox in
      let counted = record empty_report { leased = length leased.1 } in
      let processed =
        process_leased config auth run.correlation (run.publish leased.1) leased.0 counted in
      let settled = record db { outbox = processed.0 } in
      finish_cycle config auth run.cleaned_at settled processed.1

-- What a run of the worker meets: the clock, the leases that its statement has seen, the error of the
-- store if it fails to acquire partitions, with the fresh id for it, and what each tenant's cycle
-- meets.
pub record WorkerRun (J : Type 0) : Type 0 where
  pub now : Instant
  pub seen : List PartitionLease
  pub refused : Option StoreError
  pub correlation : Uuid
  pub runs : Uuid → TenantRun J

-- A tenant that fails is counted, and its own counts are lost.
unfoldable pub add_outcome :
    Result WorkerRunReport AppServiceError → WorkerRunReport → WorkerRunReport
add_outcome (err e) report = record report { tenant_failures = report.tenant_failures + 1 }
add_outcome (ok tenant) report = record {
  leased = report.leased + tenant.leased;
  delivered = report.delivered + tenant.delivered;
  failed = report.failed + tenant.failed;
  dead_lettered = report.dead_lettered + tenant.dead_lettered;
  cleaned_outbox_rows = report.cleaned_outbox_rows + tenant.cleaned_outbox_rows;
  cleaned_idempotency_rows = report.cleaned_idempotency_rows + tenant.cleaned_idempotency_rows;
  tenant_failures = report.tenant_failures;
}

module _ {J : Type 0} where
  -- The cycles of the assigned tenants. They run at once in the source, each on the rows of its own
  -- tenant; here one after another, in the order of the list.
  unfoldable pub run_tenants :
      OutboxWorkerConfig
      → (Uuid → TenantRun J)
      → List Uuid
      → Db J
      → WorkerRunReport
      → Db J × WorkerRunReport
  unfolding run_tenant_cycle add_outcome
  run_tenants config runs [] db report = (db, report)
  run_tenants config runs (workspace_id ∷ rest) db report =
      let auth : AuthContext = record {
        workspace_id = workspace_id;
        actor_id = config.worker_instance_id;
      } in
      let cycle = run_tenant_cycle config auth (runs workspace_id) db in
      run_tenants config runs rest cycle.0 (add_outcome cycle.1 report)

  -- The configured list, or the partitions that the store leases; with the leases, and the list
  -- that the worker remembers.
  unfoldable pub acquire_workspaces :
      OutboxWorkerConfig
      → WorkerRun J
      → List Uuid
      → Db J
      → Result (Db J × List Uuid × List Uuid) AppServiceError
  unfolding acquire_partitions
  acquire_workspaces config run remembered db = elim config.workspace_ids [
    | some static_list ↦ ok (db, static_list, remembered)
    | none ↦ elim run.refused [
      | some error ↦ err (map_store_worker_error run.correlation error)
      | none ↦
          let acquired =
            acquire_partitions run.seen config.worker_instance_id run.now
              (run.now + seconds config.partition_lease_seconds)
              (min config.partition_batch 9223372036854775807) config.partition_shard_buckets
              db.workspaces db.leases in
          let after = record db { leases = acquired.0 } in
          if is_nil acquired.1
          then ok (after, [], remembered)
          else ok (after, acquired.1, acquired.1)
    ]
  ]

  unfoldable pub run_once :
      OutboxWorkerConfig
      → WorkerRun J
      → List Uuid
      → Db J
      → Db J × List Uuid × Result WorkerRunReport AppServiceError
  unfolding acquire_workspaces run_tenants
  run_once config run remembered db = elim (acquire_workspaces config run remembered db) [
    | err error ↦ (db, remembered, err error)
    | ok (acquired, assigned, kept) ↦
        let ran = run_tenants config run.runs assigned acquired empty_report in
        (ran.0, kept, ok ran.1)
  ]

  -- `release_partitions` of the service; the remembered list is taken, and stays taken if the store
  -- refuses.
  unfoldable pub release_all :
      OutboxWorkerConfig
      → Uuid
      → Option StoreError
      → List Uuid
      → Db J
      → Db J × List Uuid × Outcome AppServiceError
  unfolding release_partitions
  release_all config correlation refused remembered db = elim config.workspace_ids [
    | some static_list ↦ (db, remembered, ok tt)
    | none ↦ if is_nil remembered then (db, remembered, ok tt) else elim refused [
      | some error ↦ (db, [], err (map_store_worker_error correlation error))
      | none ↦ (
        record db {
          leases = (release_partitions config.worker_instance_id remembered db.leases).0;
        },
        [],
        ok tt,
      )
    ]
  ]
