-- ===== src/Tests/Binaries.antt =====
-- A worker from its environment to its shutdown, and the check of the layers over a small tree.
use dandori.Base.{
  ℕ, ◌≡◌, ◌↔◌, refl, false, String, Option, none, some, List, [], ◌∷◌, ok, str_eq, if◌then◌else◌,
  All, arith, map_err,
}
use dandori.Base.Int.{pos, display}
use dandori.Base.Text.{append}
use dandori.Domain.Ids.{Uuid}
use dandori.Store.Partition.{new_range, ShardBucketRange}
use dandori.Store.Outbox.Defs.{OutboxMessage}
use dandori.Worker.Config.{default_config}
use dandori.Store.Error.{StoreError, sqlx, check_violation}
use dandori.Worker.Service.{WorkerRun, Completion, TenantRun}
use dandori.Bin.Worker.{
  Environment, set, not_present, invalid_bucket_range, parse_bucket_range, Settings,
}
use dandori.Bin.Worker.Runs.{parse_bucket_range-display}
use dandori.Bin.DepsCheck.{
  Package, capability, foundation, forbidden_transport, transport, Sources, scans, run_check,
}
use dandori.Bin.DepsCheck.Walk.{Entries, nil, file, directory}
use dandori.Bin.DepsCheck.Walk.Laws.{rounds}
use dandori.Bin.DepsCheck.Imports.{path, name, group, more, UseTrees}
use dandori.Bin.DepsCheck.Laws.{IsLayered, IsCleanCrate, IsEnough, run_check-passes}
use dandori.Tests.Data.{Json, nothing_locked}

abbrev environment : Environment
environment key =
    if str_eq key "DANDORI_DATABASE_URL"
    then set "postgres://db"
    else if str_eq key "DANDORI_WORKER_MAX_ATTEMPTS"
    then set "3"
    else if str_eq key "DANDORI_WORKER_BUCKET_RANGE"
    then set "0..511"
    else not_present

abbrev lower_half : ShardBucketRange
lower_half = record { min = pos 0; max = pos 511 }

abbrev settings : Settings
settings = record {
  database_url = "postgres://db";
  run_migrations = false;
  interval_ms = 1000;
  config = record default_config {
    worker_instance_id = 7;
    max_attempts = 3;
    partition_shard_buckets = lower_half;
  };
}

abbrev no_uuid : String → Option Uuid
no_uuid text = none

abbrev publish : List (OutboxMessage Json) → List (Completion Json)
publish [] = []
publish (m ∷ ms) = record { message = m; outcome = ok tt; now = 110; random = 0 } ∷ publish ms

abbrev runs : Uuid → TenantRun Json
runs ws = record {
  locked = nothing_locked;
  now = 100;
  token = 60;
  publish = publish;
  cleaned_at = 120;
  correlation = 90;
}

abbrev at_time : ℕ → Option StoreError → WorkerRun Json
at_time now refused = record {
  now = now;
  seen = [];
  refused = refused;
  correlation = 91;
  runs = runs;
}

-- The store refuses the partitions of the third run, which ends the loop.
abbrev worker_runs : List (WorkerRun Json)
worker_runs = at_time 100 none ∷ at_time 200 none ∷ at_time 300 (some (sqlx check_violation)) ∷ []

abbrev not_refused : Option StoreError
not_refused = none

parse_bucket_range-display_example :
    parse_bucket_range "DANDORI_WORKER_BUCKET_RANGE"
      (some (append (display (pos 16)) (append ".." (display (pos 511)))))
    ≡ map_err (invalid_bucket_range "DANDORI_WORKER_BUCKET_RANGE") (new_range (pos 16) (pos 511))
parse_bucket_range-display_example =
    parse_bucket_range-display "DANDORI_WORKER_BUCKET_RANGE" 16 511 (omega arith) (omega arith)

-- A file that imports `dandori_store` from the API, two directories down.
abbrev tree : Entries
tree =
    file "src/lib.rs" (directory (directory (file "src/a/b/deep.rs" nil) (file "notes.md" nil)) nil)

abbrev sources : Sources
sources = record {
  below = λ dir. if str_eq dir "bin/dandori-api/src" then some tree else none;
  read_to_string = λ path. some path;
  parse_file = λ text.
      if str_eq text "src/a/b/deep.rs"
      then some (path "dandori_store" (group (more (name "PgStore") UseTrees.none)) ∷ [])
      else some [];
}

abbrev packages : List Package
packages =
    record { name = "dandori-api"; dependencies = record { name = "dandori-policy" } ∷ [] } ∷ []

run_check_finds :
    run_check 4 (ok packages) sources
    ≡ some
        (ok ("dandori-api: src/a/b/deep.rs imports forbidden path `dandori_store::PgStore`" ∷ []))
unfolding run_check
run_check_finds = refl

enough : All (IsEnough 4 sources) scans
unfolding rounds
enough = omega arith

run_check-passes_example :
    (messages : List String) × (run_check 4 (ok packages) sources ≡ some (ok messages))
    × ((messages ≡ []) ↔ (
        (IsLayered packages capability foundation
          × IsLayered packages forbidden_transport transport)
        × All (IsCleanCrate 4 sources) scans))
run_check-passes_example = run_check-passes 4 sources packages (omega arith) enough
