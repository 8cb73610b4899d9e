-- ===== src/Tests/Worker.antt =====
-- The publisher, the registry and the worker's cycles.
use mathlib.Core.List.{Memᴰ}
use dandori.Base.{
  All, subst, sym, ℕ, ◌≡◌, ◌<◌, ◌^◌, refl, false, none, some, List, [], ◌∷◌, ok, err, any, arith,
}
use dandori.Base.Int.{pos, saturating_add}
use dandori.Base.Text.{decimal, char_length}
use dandori.Store.Table.{contains}
use dandori.Store.Table.Laws.{Distinct}
use dandori.Store.Outbox.Mark.{last_error_too_long}
use dandori.Domain.Ids.{Uuid}
use dandori.Store.Schema.{OutboxRow}
use dandori.Store.Outbox.Defs.{OutboxMessage, row_id}
use dandori.Store.Outbox.Lease.{lease_outbox_batch}
use dandori.Store.Outbox.History.{Reachable}
use dandori.Store.Outbox.History.Invariant.{IsWellFormed, Reachable-IsWellFormed}
use dandori.Worker.Config.{default_config, empty_report}
use dandori.Worker.Publish.{
  PublishError, publish_error, transient, closed_breaker, no_response, response,
}
use dandori.Worker.Publish.Laws.{after_calls, breaker_trips}
use dandori.Worker.Registry.{OutboxHandler, resolve}
use dandori.Worker.Registry.Versions.{registered}
use dandori.Worker.Registry.Laws.{IsNewest, serves, resolve-registered}
use dandori.Worker.Service.{
  WorkerRun, failure_context, Completion, TenantRun, process_leased, run_once,
}
use dandori.Worker.Service.Batch.{IsSettled}
use dandori.Worker.Service.Cycle as Cycle
use dandori.Worker.Service.Cycle.{IsInTime, lease_outbox_batch-IsSettled}
use dandori.Worker.Service.Steps.{Worked, IsFramed, run_once-Worked}
use dandori.Tests.Data.{Json, event_json, event, worker, nothing_locked, waiting, tables}

small : 2 < 2 ^ 32
small = ground arith

breaker_trips_example :
    (after_calls decimal 2 (pos 30) ((pos 100, no_response "down") ∷ []) closed_breaker
      ≡ record { consecutive_failures = 1; circuit_open_until_epoch = pos 0 })
    × (after_calls decimal 2
          (pos 30)
          ((pos 101, response 503 "") ∷ [])
          (after_calls decimal 2 (pos 30) ((pos 100, no_response "down") ∷ []) closed_breaker)
        ≡ record {
          consecutive_failures = 2;
          circuit_open_until_epoch = saturating_add (pos 101) (pos 30);
        })
breaker_trips_example =
    breaker_trips decimal 2 (pos 30) ((pos 100, no_response "down") ∷ []) (pos 101, response 503 "")
      ((omega arith, refl), tt) (omega arith, refl) refl small

abbrev handlers : List (OutboxHandler ℕ)
handlers =
    record { event_type = "issue.created.v1"; schema_version = 1; handle = 11 }
    ∷ record { event_type = "issue.created.v1"; schema_version = 3; handle = 13 }
    ∷ []

resolve-registered_example :
    ((h : OutboxHandler ℕ)
      → resolve (registered handlers) "issue.created.v1" 2 ≡ some h
      → IsNewest handlers "issue.created.v1" 2 h)
    × (resolve (registered handlers) "issue.created.v1" 2 ≡ none
        → any (serves "issue.created.v1" 2) handlers ≡ false)
resolve-registered_example = resolve-registered handlers "issue.created.v1" 2

abbrev message : OutboxMessage Json
message = record {
  id = 50;
  workspace_id = 1;
  event_id = 30;
  event_type = "issue.created.v1";
  aggregate_type = "issue";
  aggregate_id = 20;
  correlation_id = 10;
  payload = event_json event;
  attempts = 0;
  lease_token = 60;
  lease_owner = 7;
  leased_until = 130;
}

abbrev completed : Completion Json
completed = record { message = message; outcome = ok tt; now = 110; random = 0 }

abbrev publish : List (OutboxMessage Json) → List (Completion Json)
publish [] = []
publish (m ∷ ms) = record { message = m; outcome = ok tt; now = 110; random = 0 } ∷ publish ms

abbrev runs : Uuid → TenantRun Json
runs ws = record {
  locked = nothing_locked;
  now = 100;
  token = 60;
  publish = publish;
  cleaned_at = 120;
  correlation = 90;
}

some_attempts : 0 < 5
some_attempts = omega arith

abbrev worker_run : WorkerRun Json
worker_run = record { now = 100; seen = []; refused = none; correlation = 91; runs = runs }

run_once-Worked_example :
    let after = (run_once default_config worker_run [] tables).0 in
    Worked default_config tables.outbox after.outbox
    × IsFramed tables after
    × IsWellFormed 5 after.outbox
run_once-Worked_example =
    run_once-Worked default_config worker_run [] tables some_attempts
      (Reachable-IsWellFormed 5 some_attempts [] Reachable.empty)

abbrev two_rows : List (OutboxRow Json)
two_rows = waiting 50 100 ∷ waiting 51 90 ∷ []

two_distinct : Distinct row_id two_rows
two_distinct = (((λ e. ground (arith, e)), tt), (tt, tt))

abbrev message_51 : OutboxMessage Json
message_51 = record message { id = 51 }

abbrev failing : Completion Json
failing = record {
  message = message_51;
  outcome = err (publish_error transient "down");
  now = 110;
  random = 0;
}

-- The second message has ended first, and failed.
abbrev completions : List (Completion Json)
completions = failing ∷ completed ∷ []

two_messages :
    (lease_outbox_batch nothing_locked worker 100 30 10 60 two_rows).1 ≡ message ∷ message_51 ∷ []
unfolding lease_outbox_batch contains
two_messages = refl

abbrev FitsColumn : PublishError → Type 0
FitsColumn error =
    last_error_too_long (failure_context default_config failing error).error_message ≡ false

short : FitsColumn (publish_error transient "down")
unfolding failure_context last_error_too_long char_length
short = refl

completions-IsInTime :
    All
      (IsInTime default_config worker nothing_locked 100 30 10 60 two_rows two_distinct)
      completions
completions-IsInTime = (
  record {
    returned = subst (Memᴰ message_51) (sym two_messages) (Memᴰ.tail (Memᴰ.head refl));
    in_time = omega arith;
    fits = λ error e. subst FitsColumn (ground (arith, e)) short;
  },
  (
    record {
      returned = subst (Memᴰ message) (sym two_messages) (Memᴰ.head refl);
      in_time = omega arith;
      fits = λ error e. absurd (ground (arith, e));
    },
    tt,
  ),
)

lease_outbox_batch-IsSettled_example :
    IsSettled default_config worker completions
      (Cycle.leased_rows default_config worker nothing_locked 100 30 10 60 two_rows two_distinct)
      empty_report
      (process_leased default_config worker 90 completions
        (Cycle.leased_rows default_config worker nothing_locked 100 30 10 60 two_rows two_distinct)
        empty_report)
lease_outbox_batch-IsSettled_example =
    lease_outbox_batch-IsSettled default_config worker nothing_locked 100 30 10 60 two_rows
      two_distinct 90 completions empty_report (((λ e. ground (arith, e)), tt), (tt, tt))
      completions-IsInTime
