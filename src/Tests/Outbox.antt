-- ===== src/Tests/Outbox.antt =====
-- Leasing, settling and cleaning the outbox.
use dandori.Base.{
  ◌≡◌, ◌≢◌, ◌↔◌, ◌⊎◌, ◌==◌, ◌≤◌, ◌<◌, ◌+◌, refl, true, false, none, some, List, [], ◌∷◌, ok, find,
  length, arith,
}
use dandori.Base.Text.{char_length}
use dandori.Domain.Ids.{Uuid}
use dandori.Store.Schema.{OutboxRow}
use dandori.Store.Table.{contains, update_where}
use dandori.Store.Table.Laws.{Distinct}
use dandori.Store.Outbox.Defs.{OutboxFailureContext, transient, row_id, row_at, is_dead_letter}
use dandori.Store.Outbox.Lease.{
  lease_outbox_batch, lease_row, is_chosen, candidates, can_lease, due_before,
}
use dandori.Store.Outbox.Lease.Laws.{is_free, message_ids, lease_oldest_first}
use dandori.Store.Outbox.Lease.Contents.{Takes, lease_outbox_batch-Takes}
use dandori.Store.Outbox.Lease.Fencing.{after_lease, lease_fences}
use dandori.Store.Outbox.Mark.{
  failed_row, is_row, delivered_row, mark_outbox_delivered, mark_outbox_failed, last_error_too_long,
}
use dandori.Store.Outbox.Mark.Laws.{
  IsHeld, Settles, mark_outbox_delivered-eq-ok, mark_outbox_failed-eq-ok,
}
use dandori.Store.Outbox.Cleanup.{cleanup_outbox}
use dandori.Store.Outbox.Cleanup.Laws.{IsOld, cleanup_outbox-deletes}
use dandori.Store.Outbox.History.{Step, Reachable}
use dandori.Store.Outbox.History.Runs.{Steps}
use dandori.Store.Outbox.History.Exclusive.{IsMeanwhile, lease_exclusive}
use dandori.Store.Outbox.History.Attempts.{Attempts, Attempts-bound}
use dandori.Store.Outbox.History.Lifecycle.{Follows, Step-Follows}
use dandori.Store.Outbox.History.Invariant.{IsWellFormed, Reachable-IsWellFormed}
use dandori.Store.Issue.Insert.{outbox_row}
use dandori.Tests.Data.{Json, event_json, command, event, worker, stranger, nothing_locked, waiting}

abbrev rows : List (OutboxRow Json)
rows = waiting 50 100 ∷ waiting 51 90 ∷ []

distinct : Distinct row_id rows
distinct = (((λ e. ground (arith, e)), tt), (tt, tt))

abbrev leased_rows : List (OutboxRow Json)
leased_rows = lease_row 100 130 60 7 (waiting 50 100) ∷ waiting 51 90 ∷ []

leased_distinct : Distinct row_id leased_rows
unfolding lease_row
leased_distinct = (((λ e. ground (arith, e)), tt), (tt, tt))

found : row_at 50 rows ≡ some (waiting 50 100)
unfolding find
found = refl

lease_outbox_batch-Takes_example :
    let (after, messages) = lease_outbox_batch nothing_locked worker 100 30 10 60 rows in
    Distinct (λ m. m.id) messages
    × (Takes nothing_locked worker 100 (100 + 30) 60 50 rows after messages
        ⊎ ((find (λ m. m.id == 50) messages ≡ none) × (row_at 50 after ≡ row_at 50 rows)))
lease_outbox_batch-Takes_example =
    lease_outbox_batch-Takes nothing_locked worker 100 30 10 60 rows distinct 50

free : is_free nothing_locked worker 100 1 (waiting 50 100) ≡ true
unfolding can_lease
free = refl

left_out : is_chosen nothing_locked worker 100 1 rows (waiting 50 100) ≡ false
unfolding is_chosen contains
left_out = refl

lease_oldest_first_example :
    (length (candidates nothing_locked worker.workspace_id 100 1 rows) ≡ 1)
    × ((j : Uuid) (c : OutboxRow Json)
        → row_at j rows ≡ some c
        → is_chosen nothing_locked worker 100 1 rows c ≡ true
        → due_before (waiting 50 100) c ≡ false)
lease_oldest_first_example =
    lease_oldest_first nothing_locked worker 100 30 1 60 rows distinct 50 (waiting 50 100) found
      free left_out

returned :
    contains 50 (message_ids (lease_outbox_batch nothing_locked worker 100 30 10 60 rows).1) ≡ true
unfolding lease_outbox_batch contains
returned = refl

early : 110 < 100 + 30
early = omega arith

abbrev after_first : List (OutboxRow Json)
after_first = (lease_outbox_batch nothing_locked worker 100 30 10 60 rows).0

abbrev after_second : List (OutboxRow Json)
after_second = (lease_outbox_batch nothing_locked stranger 105 30 10 62 after_first).0

abbrev after_cleanup : List (OutboxRow Json)
after_cleanup = (cleanup_outbox worker 200 200 after_second).0

meanwhile : Steps 5 (IsMeanwhile 50 (100 + 30)) after_first after_cleanup
meanwhile =
    Steps.step_then (Step.leased_batch nothing_locked stranger 105 30 10 62 after_first)
      (omega arith) (Steps.step_then (Step.cleaned worker 200 200 after_second) tt Steps.no_step)

lease_exclusive_example :
    (row_at 50 after_cleanup ≡ row_at 50 after_first)
    × (contains 50
          (message_ids (lease_outbox_batch nothing_locked stranger 110 30 10 61 after_cleanup).1)
        ≡ false)
lease_exclusive_example =
    lease_exclusive nothing_locked worker 100 30 10 60 rows distinct 5 after_cleanup nothing_locked
      stranger 110 30 10 61 50 returned meanwhile early

abbrev failure : OutboxFailureContext
failure = record {
  classification = transient;
  lease_token = 60;
  lease_owner = 7;
  now = 110;
  error_message = "Transient: down";
  max_attempts = 5;
  retry_backoff = 15;
}

abbrev stale_token : Uuid
stale_token = 59

lease_fences_example :
    (stale_token ≢ 60
      → mark_outbox_delivered worker 50 stale_token 7 110
          (after_lease nothing_locked worker 100 30 10 60 rows distinct 50)
        ≢ ok rows)
    × (failure.lease_token ≢ 60
        → mark_outbox_failed worker 50 failure
            (after_lease nothing_locked worker 100 30 10 60 rows distinct 50)
          ≢ ok rows)
lease_fences_example =
    lease_fences nothing_locked worker 100 30 10 60 rows distinct 50 worker stale_token 7 110
      failure rows returned

mark_outbox_delivered-eq-ok_example :
    (mark_outbox_delivered worker 50 60 7 110 leased_rows ≡ ok rows) ↔ (
      (7 ≡ worker.actor_id)
      × ((o : OutboxRow Json) × IsHeld worker.workspace_id 50 60 7 110 leased_rows o)
      × (rows ≡ update_where (is_row worker.workspace_id 50) (delivered_row 110) leased_rows))
mark_outbox_delivered-eq-ok_example =
    mark_outbox_delivered-eq-ok worker 50 60 7 110 leased_rows leased_distinct rows

mark_outbox_failed-eq-ok_example : (mark_outbox_failed worker 50 failure leased_rows ≡ ok rows) ↔ (
    (failure.lease_owner ≡ worker.actor_id)
    × (last_error_too_long failure.error_message ≡ false)
    × ((o : OutboxRow Json) × Settles worker 50 failure leased_rows leased_distinct rows o))
mark_outbox_failed-eq-ok_example =
    mark_outbox_failed-eq-ok worker 50 failure leased_rows leased_distinct rows

cleanup_outbox-deletes_example :
    let (after, deleted) = cleanup_outbox worker 200 200 rows in
    ((o : OutboxRow Json)
      → row_at 50 rows ≡ some o
      → ((row_at 50 after ≡ none) ↔ IsOld worker.workspace_id 200 200 o)
        × ((row_at 50 after ≡ none) ⊎ (row_at 50 after ≡ some o)))
    × (row_at 50 rows ≡ none → row_at 50 after ≡ none)
    × (length after + deleted ≡ length rows)
cleanup_outbox-deletes_example = cleanup_outbox-deletes worker 200 200 rows distinct 50

abbrev first : OutboxRow Json
first = outbox_row command event 50 (event_json event) 100

abbrev no_rows : List (OutboxRow Json)
no_rows = []

nothing_there : row_at 50 no_rows ≡ none
unfolding find
nothing_there = refl

Reachable-IsWellFormed_example : IsWellFormed 5 (first ∷ [])
Reachable-IsWellFormed_example = Reachable-IsWellFormed 5 (omega arith) (first ∷ []) (
    Reachable.then_step [] (first ∷ []) Reachable.empty
      (Step.enqueued command event 50 (event_json event) 100 [] nothing_there))

Step-Follows_example :
    Follows 5 50 (waiting 50 100) (lease_outbox_batch nothing_locked worker 100 30 10 60 rows).0
Step-Follows_example =
    Step-Follows 5 rows (lease_outbox_batch nothing_locked worker 100 30 10 60 rows).0 distinct
      (Step.leased_batch nothing_locked worker 100 30 10 60 rows) 50 (waiting 50 100) found

reached : Reachable 5 (first ∷ [])
reached =
    Reachable.then_step [] (first ∷ []) Reachable.empty
      (Step.enqueued command event 50 (event_json event) 100 [] nothing_there)

there : row_at 50 (first ∷ []) ≡ some first
unfolding find outbox_row
there = refl

abbrev first_leased : OutboxRow Json
first_leased = lease_row 100 130 60 7 first

leased_there :
    row_at 50 (lease_outbox_batch nothing_locked worker 100 30 10 60 (first ∷ [])).0
    ≡ some first_leased
unfolding find outbox_row lease_outbox_batch contains
leased_there = refl

fails :
    mark_outbox_failed worker 50 failure
      (lease_outbox_batch nothing_locked worker 100 30 10 60 (first ∷ [])).0
    ≡ ok (failed_row failure 1 first_leased ∷ [])
unfolding mark_outbox_failed lease_outbox_batch outbox_row contains last_error_too_long char_length
fails = refl

failed_once : Attempts 5 50 1 (first ∷ []) (failed_row failure 1 first_leased ∷ [])
failed_once =
    Attempts.other first_leased (Step.leased_batch nothing_locked worker 100 30 10 60 (first ∷ []))
      leased_there (Attempts.fail worker failure refl fails Attempts.stop)

Attempts-bound_example :
    (o : OutboxRow Json) × (row_at 50 (failed_row failure 1 first_leased ∷ []) ≡ some o)
    × (first.attempts + 1 ≤ o.attempts)
    × (o.attempts ≤ 5)
    × (o.attempts ≡ 5 → is_dead_letter o.status ≡ true)
Attempts-bound_example =
    Attempts-bound 5 50 (omega arith) 1 (first ∷ []) (failed_row failure 1 first_leased ∷ []) first
      reached there failed_once
