-- ===== src/Tests/Delivery.antt =====
-- From a new event to its delivery.
use mathlib.Core.List.{Memᴰ}
use dandori.Base.{
  ℕ, ◌≡◌, refl, sym, subst, none, some, List, [], ◌∷◌, ok, err, map, All, String, Option, arith,
  Result, Outcome,
}
use dandori.Domain.Event.{IssueCreatedEventV1}
use dandori.Store.Schema.{Db, OutboxRow}
use dandori.Store.Table.{contains}
use dandori.Store.Table.Laws.{Distinct}
use dandori.Store.Issue.Insert.{insert_outbox, outbox_row}
use dandori.Store.Outbox.Defs.{OutboxMessage, row_id, row_at}
use dandori.Store.Outbox.Lease.{lease_outbox_batch, lease_row, message_of}
use dandori.Store.Outbox.Mark.{delivered_row}
use dandori.Worker.Config.{default_config, empty_report}
use dandori.Worker.Handlers.{noop_publisher}
use dandori.Worker.Registry.{dispatch, resolve_schema_version}
use dandori.Worker.Handlers.{default_registry}
use dandori.Worker.Service.{Completion, process_leased}
use dandori.Worker.Publish.{PublishError}
use dandori.Worker.Service.Cycle.{leased_rows, IsInTime}
use dandori.Worker.Service.Delivery.{Ended, complete, publish, insert_outbox-delivered}
use dandori.Tests.Data.{
  Json, event_json, command, event, event_value, worker, nothing_locked, tables,
}

abbrev read_event : Json → Result IssueCreatedEventV1 String
read_event (event_json e) = ok e
read_event _ = err "no event"

abbrev get_u64 : Json → Option ℕ
get_u64 json = none

abbrev enqueued : Db Json
enqueued = record tables { outbox = outbox_row command event 50 (event_json event) 100 ∷ [] }

enqueues : insert_outbox event_value 1 command event 50 100 tables ≡ ok enqueued
unfolding insert_outbox
enqueues = refl

abbrev stored : List (OutboxRow Json)
stored = enqueued.outbox

distinct : Distinct row_id stored
distinct = (tt, tt)

abbrev message : OutboxMessage Json
message = message_of 130 60 7 (outbox_row command event 50 (event_json event) 100)

abbrev finished : Ended Json
finished = record { message = message; now = 110; random = 0 }

abbrev answer : OutboxMessage Json → Outcome PublishError
answer = publish read_event get_u64 noop_publisher

abbrev completions : List (Completion Json)
completions = map (complete answer) (finished ∷ [])

returned : (lease_outbox_batch nothing_locked worker 100 30 10 60 stored).1 ≡ message ∷ []
unfolding lease_outbox_batch contains outbox_row
returned = refl

published : answer message ≡ ok tt
unfolding dispatch default_registry resolve_schema_version message_of outbox_row noop_publisher
published = refl

completions-IsInTime :
    All (IsInTime default_config worker nothing_locked 100 30 10 60 stored distinct) completions
unfolding complete
completions-IsInTime = (
  record {
    returned = subst (Memᴰ message) (sym returned) (Memᴰ.head refl);
    in_time = omega arith;
    fits = λ error e. absurd (ground (arith, e, published));
  },
  tt,
)

one_message : message.id ≡ 50
unfolding message_of outbox_row
one_message = refl

taken : noop_publisher.publish_issue_created message event ≡ ok tt
unfolding noop_publisher
taken = refl

insert_outbox-delivered_example :
    (o : OutboxRow Json) × (row_at 50 stored ≡ some o)
    × (row_at 50
          (process_leased default_config worker 90 completions
            (leased_rows default_config worker nothing_locked 100 30 10 60 stored distinct)
            empty_report).0
        ≡ some (delivered_row 110 (lease_row 100 130 60 7 o)))
insert_outbox-delivered_example =
    insert_outbox-delivered read_event get_u64 noop_publisher event_value 1 command event 50 100
      tables enqueued (event_json event) enqueues refl refl refl default_config worker
      nothing_locked 100 30 10 60 90 distinct (finished ∷ []) empty_report (tt, tt)
      completions-IsInTime finished (Memᴰ.head refl) one_message taken
