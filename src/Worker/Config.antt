-- ===== src/Worker/Config.antt =====
-- crates/dandori-app-services/src/worker/config.rs.
use dandori.Base.{ℕ, Option, List, none}
use dandori.Base.Int.{ℤ, pos}
use dandori.Domain.Ids.{Uuid}
use dandori.Store.Partition.{ShardBucketRange, full}

-- Counts of seconds and hours are not negative here.
pub record OutboxWorkerConfig : Type 0 where
  pub workspace_ids : Option (List Uuid)
  pub worker_instance_id : Uuid
  pub batch_size : ℕ
  pub lease_seconds : ℕ
  pub max_attempts : ℕ
  pub retry_backoff_seconds : ℤ
  pub delivered_retention_hours : ℕ
  pub dead_letter_retention_hours : ℕ
  pub idempotency_retention_hours : ℕ
  pub publish_concurrency : ℕ
  pub http_connect_timeout_ms : ℕ
  pub http_request_timeout_ms : ℕ
  pub http_pool_max_idle_per_host : ℕ
  pub retry_jitter_ms : ℕ
  pub circuit_failure_threshold : ℕ
  pub circuit_cooldown_seconds : ℤ
  pub partition_batch : ℕ
  pub partition_lease_seconds : ℕ
  pub partition_shard_buckets : ShardBucketRange
  pub tenant_max_concurrency : ℕ

-- `OutboxWorkerConfig::default()`
abbrev pub default_config : OutboxWorkerConfig
default_config = record {
  workspace_ids = none;
  worker_instance_id = 0;
  batch_size = 32;
  lease_seconds = 30;
  max_attempts = 5;
  retry_backoff_seconds = pos 15;
  delivered_retention_hours = 24;
  dead_letter_retention_hours = 168;
  idempotency_retention_hours = 168;
  publish_concurrency = 8;
  http_connect_timeout_ms = 2000;
  http_request_timeout_ms = 10000;
  http_pool_max_idle_per_host = 16;
  retry_jitter_ms = 2000;
  circuit_failure_threshold = 10;
  circuit_cooldown_seconds = pos 30;
  partition_batch = 64;
  partition_lease_seconds = 60;
  partition_shard_buckets = full;
  tenant_max_concurrency = 8;
}

pub record WorkerRunReport : Type 0 where
  pub leased : ℕ
  pub delivered : ℕ
  pub failed : ℕ
  pub dead_lettered : ℕ
  pub cleaned_outbox_rows : ℕ
  pub cleaned_idempotency_rows : ℕ
  pub tenant_failures : ℕ

abbrev pub empty_report : WorkerRunReport
empty_report = record {
  leased = 0;
  delivered = 0;
  failed = 0;
  dead_lettered = 0;
  cleaned_outbox_rows = 0;
  cleaned_idempotency_rows = 0;
  tenant_failures = 0;
}
