-- ===== src/Bin/Worker/Laws.antt =====
-- bin/dandori-worker/src/main.rs: what a start of the worker is given.
use dandori.Base.{
  ◌≤◌, String, false, Option, none, ◌≡◌, refl, Ensures, done, Ensures-bind, Ensures-any,
}
use dandori.Base.Int.{pos, ◌≤ℤ◌}
use dandori.Domain.Ids.{Uuid}
use dandori.Bin.Worker.{
  instance_id, parse_env_bool, database_variable, Environment, u64, u32, i64, i32, Settings,
  resolve_settings,
}
use dandori.Bin.Worker.Parse.{natural, integer, within, parse_shard_bucket_range-IsWindow}

-- The bounds that main.rs writes down for its variables; the tenants are those leased.
pub record IsInBounds (s : Settings) : Type 0 where
  pub dynamic : s.config.workspace_ids ≡ none
  pub interval_ms : (50 ≤ s.interval_ms) × (s.interval_ms ≤ 600000)
  pub partition_batch : (1 ≤ s.config.partition_batch) × (s.config.partition_batch ≤ 10000)
  pub partition_lease_seconds :
      (1 ≤ s.config.partition_lease_seconds) × (s.config.partition_lease_seconds ≤ 3600)
  pub publish_concurrency :
      (1 ≤ s.config.publish_concurrency) × (s.config.publish_concurrency ≤ 256)
  pub tenant_max_concurrency :
      (1 ≤ s.config.tenant_max_concurrency) × (s.config.tenant_max_concurrency ≤ 256)
  pub http_connect_timeout_ms :
      (1 ≤ s.config.http_connect_timeout_ms) × (s.config.http_connect_timeout_ms ≤ 120000)
  pub http_request_timeout_ms :
      (1 ≤ s.config.http_request_timeout_ms) × (s.config.http_request_timeout_ms ≤ 600000)
  pub retry_jitter_ms : (0 ≤ s.config.retry_jitter_ms) × (s.config.retry_jitter_ms ≤ 60000)
  pub circuit_failure_threshold :
      (0 ≤ s.config.circuit_failure_threshold) × (s.config.circuit_failure_threshold ≤ 10000)
  pub circuit_cooldown_seconds :
      (pos 0 ≤ℤ s.config.circuit_cooldown_seconds) × (s.config.circuit_cooldown_seconds ≤ℤ pos 3600)
  pub batch_size : (1 ≤ s.config.batch_size) × (s.config.batch_size ≤ 10000)
  pub lease_seconds : (1 ≤ s.config.lease_seconds) × (s.config.lease_seconds ≤ 3600)
  pub max_attempts : (1 ≤ s.config.max_attempts) × (s.config.max_attempts ≤ 1000)
  pub retry_backoff_seconds :
      (pos 0 ≤ℤ s.config.retry_backoff_seconds) × (s.config.retry_backoff_seconds ≤ℤ pos 3600)
  pub delivered_retention_hours :
      (1 ≤ s.config.delivered_retention_hours) × (s.config.delivered_retention_hours ≤ 8760)
  pub dead_letter_retention_hours :
      (1 ≤ s.config.dead_letter_retention_hours) × (s.config.dead_letter_retention_hours ≤ 17520)
  pub idempotency_retention_hours :
      (1 ≤ s.config.idempotency_retention_hours) × (s.config.idempotency_retention_hours ≤ 17520)
  pub http_pool_max_idle_per_host :
      (0 ≤ s.config.http_pool_max_idle_per_host) × (s.config.http_pool_max_idle_per_host ≤ 1024)
  pub buckets :
      (pos 0 ≤ℤ s.config.partition_shard_buckets.min)
      × (s.config.partition_shard_buckets.min ≤ℤ s.config.partition_shard_buckets.max)
      × (s.config.partition_shard_buckets.max ≤ℤ pos 1023)

pub resolve_settings-IsInBounds :
    (parse_uuid : String → Option Uuid) (generated : Uuid) (env : Environment)
    → Ensures IsInBounds (resolve_settings parse_uuid generated env)
unfolding resolve_settings
resolve_settings-IsInBounds parse_uuid generated env =
    Ensures-bind (Ensures-any (database_variable (env "DANDORI_DATABASE_URL"))) λ url _.
      Ensures-bind (Ensures-any (parse_env_bool env "DANDORI_RUN_MIGRATIONS" false)) λ run _.
        Ensures-bind
          (Ensures-any (instance_id parse_uuid generated env "DANDORI_WORKER_INSTANCE_ID"))
          λ id _.
            Ensures-bind
              (natural u64.parse env "DANDORI_WORKER_INTERVAL_MS" 1000 50 600000 refl refl)
              λ interval_ms h0.
                Ensures-bind
                  (natural u64.parse env "DANDORI_WORKER_PARTITION_BATCH" 64 1 10000 refl refl)
                  λ partition_batch h1.
                    Ensures-bind
                      (integer i64.parse env "DANDORI_WORKER_PARTITION_LEASE_SECONDS" 60 1 3600 refl
                        refl)
                      λ partition_lease_seconds h2.
                        Ensures-bind
                          (natural u64.parse env "DANDORI_WORKER_PUBLISH_CONCURRENCY" 8 1 256 refl
                            refl)
                          λ publish_concurrency h3.
                            Ensures-bind
                              (natural u64.parse env "DANDORI_WORKER_TENANT_MAX_CONCURRENCY" 8 1 256
                                refl refl)
                              λ tenant_max_concurrency h4.
                                Ensures-bind
                                  (natural u64.parse env "DANDORI_WORKER_HTTP_CONNECT_TIMEOUT_MS"
                                    2000 1 120000 refl refl)
                                  λ http_connect_timeout_ms h5.
                                    Ensures-bind
                                      (natural u64.parse env
                                        "DANDORI_WORKER_HTTP_REQUEST_TIMEOUT_MS" 10000 1 600000 refl
                                        refl)
                                      λ http_request_timeout_ms h6.
                                        Ensures-bind
                                          (natural u64.parse env "DANDORI_WORKER_RETRY_JITTER_MS"
                                            2000 0 60000 refl refl)
                                          λ retry_jitter_ms h7.
                                            Ensures-bind
                                              (natural u32.parse env
                                                "DANDORI_WORKER_CIRCUIT_FAILURE_THRESHOLD" 10 0
                                                10000 refl refl)
                                              λ circuit_failure_threshold h8.
                                                Ensures-bind
                                                  (integer i64.parse env
                                                    "DANDORI_WORKER_CIRCUIT_COOLDOWN_SECONDS" 30 0
                                                    3600 refl refl)
                                                  λ circuit_cooldown_seconds h9.
                                                    Ensures-bind
                                                      (integer i64.parse env
                                                        "DANDORI_WORKER_BATCH_SIZE" 32 1 10000 refl
                                                        refl)
                                                      λ batch_size h10.
                                                        Ensures-bind
                                                          (integer i64.parse env
                                                            "DANDORI_WORKER_LEASE_SECONDS" 30 1 3600
                                                            refl refl)
                                                          λ lease_seconds h11.
                                                            Ensures-bind
                                                            (integer i32.parse env
                                                            "DANDORI_WORKER_MAX_ATTEMPTS" 5 1 1000
                                                            refl refl)
                                                            λ max_attempts h12.
                                                            Ensures-bind
                                                            (integer i64.parse env
                                                            "DANDORI_WORKER_RETRY_BACKOFF_SECONDS"
                                                            15 0 3600 refl refl)
                                                            λ retry_backoff_seconds h13.
                                                            Ensures-bind
                                                            (integer i64.parse env
                                                            "DANDORI_WORKER_DELIVERED_RETENTION_HOURS"
                                                            24 1 8760 refl refl)
                                                            λ delivered_retention_hours h14.
                                                            Ensures-bind
                                                            (integer i64.parse env
                                                            "DANDORI_WORKER_DEAD_LETTER_RETENTION_HOURS"
                                                            168 1 17520 refl refl)
                                                            λ dead_letter_retention_hours h15.
                                                            Ensures-bind
                                                            (integer i64.parse env
                                                            "DANDORI_WORKER_IDEMPOTENCY_RETENTION_HOURS"
                                                            168 1 17520 refl refl)
                                                            λ idempotency_retention_hours h16.
                                                            Ensures-bind
                                                            (natural u64.parse env
                                                            "DANDORI_WORKER_HTTP_POOL_MAX_IDLE_PER_HOST"
                                                            16 0 1024 refl refl)
                                                            λ http_pool_max_idle_per_host h17.
                                                            Ensures-bind
                                                            (parse_shard_bucket_range-IsWindow env
                                                            "DANDORI_WORKER_BUCKET_RANGE")
                                                            λ range hb. done (record {
                                                            dynamic = refl;
                                                            interval_ms = h0;
                                                            partition_batch = h1;
                                                            partition_lease_seconds =
                                                            within partition_lease_seconds 1 3600
                                                            h2;
                                                            publish_concurrency = h3;
                                                            tenant_max_concurrency = h4;
                                                            http_connect_timeout_ms = h5;
                                                            http_request_timeout_ms = h6;
                                                            retry_jitter_ms = h7;
                                                            circuit_failure_threshold = h8;
                                                            circuit_cooldown_seconds = h9;
                                                            batch_size =
                                                            within batch_size 1 10000 h10;
                                                            lease_seconds =
                                                            within lease_seconds 1 3600 h11;
                                                            max_attempts =
                                                            within max_attempts 1 1000 h12;
                                                            retry_backoff_seconds = h13;
                                                            delivered_retention_hours =
                                                            within delivered_retention_hours 1 8760
                                                            h14;
                                                            dead_letter_retention_hours =
                                                            within dead_letter_retention_hours 1
                                                            17520 h15;
                                                            idempotency_retention_hours =
                                                            within idempotency_retention_hours 1
                                                            17520 h16;
                                                            http_pool_max_idle_per_host = h17;
                                                            buckets = hb;
                                                            })
