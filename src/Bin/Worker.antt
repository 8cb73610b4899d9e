-- ===== src/Bin/Worker.antt =====
-- bin/dandori-worker/src/main.rs. An error is what its message is made of.
pub mod Laws
pub mod Parse
pub mod Runs
use dandori.Base.{
  ℕ, ◌+◌, String, Bool, true, false, not, ◌&&◌, ◌||◌, Option, none, some, List, [], ◌∷◌, leb,
  str_eq, if◌then◌else◌, Result, Outcome, ok, err, fail_if, ok_or, map_err, ◌>>=◌, ◌>>◌,
}
use dandori.Base.Int.{ℤ, pos, pos_part, leb_ℤ}
use dandori.Base.Text.{split_once, to_ascii_lowercase}
use dandori.Base.Numbers.{parse_unsigned, parse_signed}
use dandori.Domain.Ids.{Uuid, Instant}
use dandori.Store.Schema.{Db, PartitionLease}
use dandori.Store.Error.{StoreError}
use dandori.Store.Partition.{ShardBucketRange, full, new_range}
use dandori.Worker.Config.{OutboxWorkerConfig}
use dandori.Worker.Service.{WorkerRun, run_once, release_all}
use dandori.App.Error.{AppServiceError}

pub data StartError : Type 0 where
  not_unicode : String → StartError
  invalid_value : String → String → StartError
  out_of_range : String → StartError
  invalid_boolean : String → String → StartError
  not_min_max : String → String → StartError
  min_not_an_integer : String → String → StartError
  max_not_an_integer : String → String → StartError
  invalid_bucket_range : String → StoreError → StartError
  invalid_instance_id : String → StartError
  missing_database_url : StartError

-- What `std::env::var` gives.
pub data Variable : Type 0 where
  set : String → Variable
  not_present : Variable
  not_utf8 : Variable

abbrev pub Environment : Type 0
Environment = String → Variable

abbrev pub variable_text : String → Variable → Result (Option String) StartError
variable_text name (set raw) = ok (some raw)
variable_text name not_present = ok none
variable_text name not_utf8 = err (not_unicode name)

unfoldable pub read_env : Environment → String → Result (Option String) StartError
read_env env name = variable_text name (env name)

-- The numbers that are configured: how they are parsed and compared.
pub record Number (T : Type 0) : Type 0 where
  pub parse : String → Option T
  pub at_most : T → T → Bool

-- `u64` and, on 64 bits, `usize`; `u32`.
abbrev pub u64 : Number ℕ
u64 = record { parse = parse_unsigned 18446744073709551615; at_most = leb }

abbrev pub u32 : Number ℕ
u32 = record { parse = parse_unsigned 4294967295; at_most = leb }

abbrev pub i64 : Number ℤ
i64 = record { parse = parse_signed 9223372036854775807; at_most = leb_ℤ }

abbrev pub i32 : Number ℤ
i32 = record { parse = parse_signed 2147483647; at_most = leb_ℤ }

module _ {T : Type 0} (number : Number T) where
  -- The bounds are a `RangeInclusive`.
  unfoldable pub parse_bounded : String → Option String → T → T → T → Result T StartError
  parse_bounded name none default lowest highest = ok default
  parse_bounded name (some raw) default lowest highest = do
    parsed ← ok_or (number.parse raw) (invalid_value name raw)
    fail_if (not (number.at_most lowest parsed && number.at_most parsed highest))
        (out_of_range name)
    ok parsed

  unfoldable pub parse_env_bounded : Environment → String → T → T → T → Result T StartError
  unfolding read_env parse_bounded
  parse_env_bounded env name default lowest highest = do
    raw ← read_env env name
    parse_bounded name raw default lowest highest

is_true_text : String → Bool
is_true_text s = str_eq s "1" || str_eq s "true" || str_eq s "yes" || str_eq s "on"

is_false_text : String → Bool
is_false_text s = str_eq s "0" || str_eq s "false" || str_eq s "no" || str_eq s "off" || str_eq s ""

unfoldable pub parse_bool : String → Option String → Bool → Result Bool StartError
unfolding is_true_text is_false_text to_ascii_lowercase
parse_bool name none default = ok default
parse_bool name (some raw) default =
    if is_true_text (to_ascii_lowercase raw)
    then ok true
    else if is_false_text (to_ascii_lowercase raw)
    then ok false
    else err (invalid_boolean name (to_ascii_lowercase raw))

unfoldable pub parse_env_bool : Environment → String → Bool → Result Bool StartError
unfolding read_env parse_bool
parse_env_bool env name default = do raw ← read_env env name; parse_bool name raw default

unfoldable pub parse_bucket_range : String → Option String → Result ShardBucketRange StartError
unfolding split_once new_range
parse_bucket_range name none = ok full
parse_bucket_range name (some raw) = do
  ends ← ok_or (split_once ".." raw) (not_min_max name raw)
  lowest ← ok_or (i32.parse ends.0) (min_not_an_integer name ends.0)
  highest ← ok_or (i32.parse ends.1) (max_not_an_integer name ends.1)
  map_err (invalid_bucket_range name) (new_range lowest highest)

unfoldable pub parse_shard_bucket_range : Environment → String → Result ShardBucketRange StartError
unfolding read_env parse_bucket_range
parse_shard_bucket_range env name = do raw ← read_env env name; parse_bucket_range name raw

-- `Uuid::parse_str`, and the fresh id that is taken where the variable is unset.
unfoldable pub instance_id :
    (String → Option Uuid) → Uuid → Environment → String → Result Uuid StartError
unfolding read_env
instance_id parse_uuid generated env name = do
  raw ← read_env env name
  elim raw [ none ↦ ok generated | some text ↦ ok_or (parse_uuid text) (invalid_instance_id text) ]

-- What `main` resolves before it builds the service.
pub record Settings : Type 0 where
  pub database_url : String
  pub run_migrations : Bool
  pub interval_ms : ℕ
  pub config : OutboxWorkerConfig

abbrev pub database_variable : Variable → Result String StartError
database_variable (set raw) = ok raw
database_variable not_present = err missing_database_url
database_variable not_utf8 = err missing_database_url

-- The counts that the configuration holds as naturals are integers between their bounds here.
unfoldable pub resolve_settings :
    (String → Option Uuid) → Uuid → Environment → Result Settings StartError
unfolding parse_env_bool instance_id parse_env_bounded parse_shard_bucket_range
resolve_settings parse_uuid generated env = do
  database_url ← database_variable (env "DANDORI_DATABASE_URL")
  run_migrations ← parse_env_bool env "DANDORI_RUN_MIGRATIONS" false
  worker_instance_id ← instance_id parse_uuid generated env "DANDORI_WORKER_INSTANCE_ID"
  interval_ms ← parse_env_bounded u64 env "DANDORI_WORKER_INTERVAL_MS" 1000 50 600000
  partition_batch ← parse_env_bounded u64 env "DANDORI_WORKER_PARTITION_BATCH" 64 1 10000
  partition_lease_seconds ←
      parse_env_bounded i64 env "DANDORI_WORKER_PARTITION_LEASE_SECONDS" (pos 60) (pos 1) (pos 3600)
  publish_concurrency ← parse_env_bounded u64 env "DANDORI_WORKER_PUBLISH_CONCURRENCY" 8 1 256
  tenant_max_concurrency ← parse_env_bounded u64 env "DANDORI_WORKER_TENANT_MAX_CONCURRENCY" 8 1 256
  http_connect_timeout_ms ←
      parse_env_bounded u64 env "DANDORI_WORKER_HTTP_CONNECT_TIMEOUT_MS" 2000 1 120000
  http_request_timeout_ms ←
      parse_env_bounded u64 env "DANDORI_WORKER_HTTP_REQUEST_TIMEOUT_MS" 10000 1 600000
  retry_jitter_ms ← parse_env_bounded u64 env "DANDORI_WORKER_RETRY_JITTER_MS" 2000 0 60000
  circuit_failure_threshold ←
      parse_env_bounded u32 env "DANDORI_WORKER_CIRCUIT_FAILURE_THRESHOLD" 10 0 10000
  circuit_cooldown_seconds ←
      parse_env_bounded i64 env "DANDORI_WORKER_CIRCUIT_COOLDOWN_SECONDS" (pos 30) (pos 0)
        (pos 3600)
  batch_size ← parse_env_bounded i64 env "DANDORI_WORKER_BATCH_SIZE" (pos 32) (pos 1) (pos 10000)
  lease_seconds ←
      parse_env_bounded i64 env "DANDORI_WORKER_LEASE_SECONDS" (pos 30) (pos 1) (pos 3600)
  max_attempts ← parse_env_bounded i32 env "DANDORI_WORKER_MAX_ATTEMPTS" (pos 5) (pos 1) (pos 1000)
  retry_backoff_seconds ←
      parse_env_bounded i64 env "DANDORI_WORKER_RETRY_BACKOFF_SECONDS" (pos 15) (pos 0) (pos 3600)
  delivered_retention_hours ←
      parse_env_bounded i64 env "DANDORI_WORKER_DELIVERED_RETENTION_HOURS" (pos 24) (pos 1)
        (pos 8760)
  dead_letter_retention_hours ←
      parse_env_bounded i64 env "DANDORI_WORKER_DEAD_LETTER_RETENTION_HOURS" (pos 168) (pos 1)
        (pos 17520)
  idempotency_retention_hours ←
      parse_env_bounded i64 env "DANDORI_WORKER_IDEMPOTENCY_RETENTION_HOURS" (pos 168) (pos 1)
        (pos 17520)
  http_pool_max_idle_per_host ←
      parse_env_bounded u64 env "DANDORI_WORKER_HTTP_POOL_MAX_IDLE_PER_HOST" 16 0 1024
  partition_shard_buckets ← parse_shard_bucket_range env "DANDORI_WORKER_BUCKET_RANGE"
  let config : OutboxWorkerConfig = record {
    workspace_ids = none;
    worker_instance_id = worker_instance_id;
    partition_batch = partition_batch;
    partition_lease_seconds = pos_part partition_lease_seconds;
    publish_concurrency = publish_concurrency;
    tenant_max_concurrency = tenant_max_concurrency;
    http_connect_timeout_ms = http_connect_timeout_ms;
    http_request_timeout_ms = http_request_timeout_ms;
    retry_jitter_ms = retry_jitter_ms;
    circuit_failure_threshold = circuit_failure_threshold;
    circuit_cooldown_seconds = circuit_cooldown_seconds;
    batch_size = pos_part batch_size;
    lease_seconds = pos_part lease_seconds;
    max_attempts = pos_part max_attempts;
    retry_backoff_seconds = retry_backoff_seconds;
    delivered_retention_hours = pos_part delivered_retention_hours;
    dead_letter_retention_hours = pos_part dead_letter_retention_hours;
    idempotency_retention_hours = pos_part idempotency_retention_hours;
    http_pool_max_idle_per_host = http_pool_max_idle_per_host;
    partition_shard_buckets = partition_shard_buckets;
  }
  ok (record {
    database_url = database_url;
    run_migrations = run_migrations;
    interval_ms = interval_ms;
    config = config;
  })

module _ {J : Type 0} (config : OutboxWorkerConfig) where
  -- `run_loop` for the runs before the shutdown signal; a run that fails ends it. Then the release of
  -- the partitions.
  unfoldable pub run_loop :
      List (WorkerRun J) → List Uuid → Db J → Db J × List Uuid × Outcome AppServiceError
  unfolding run_once
  run_loop [] remembered db = (db, remembered, ok tt)
  run_loop (run ∷ runs) remembered db =
      let cycle = run_once config run remembered db in
      elim cycle.2 [
        | err error ↦ (cycle.0, cycle.1, err error)
        | ok report ↦ run_loop runs cycle.1 cycle.0
      ]

  -- An error of the release is logged.
  unfoldable pub run_until_shutdown :
      List (WorkerRun J)
      → Uuid
      → Option StoreError
      → Db J
      → Db J × List Uuid × Outcome AppServiceError
  unfolding run_loop release_all
  run_until_shutdown runs correlation refused db =
      let ended = run_loop runs [] db in
      let released = release_all config correlation refused ended.1 ended.0 in
      (released.0, released.1, ended.2)
