-- ===== src/Tests/Poison.antt =====
-- A message whose error text does not fit, behind one that has been published.
use Prim.Native.Nat.{zero, suc}
use Prim.Native.String.append.{nil, cons}
use dandori.Base.{
  ℕ, ◌≡◌, ◌≢◌, ◌+◌, ◌++◌, refl, ap, ◌∙◌, true, some, String, List, [], ◌∷◌, All, ok, err, arith,
  find,
}
use dandori.Base.Text.{char_length, append}
use dandori.Domain.Ids.{Uuid}
use dandori.Store.Schema.{OutboxRow}
use dandori.Store.Table.Laws.{Distinct}
use dandori.Store.Outbox.Defs.{OutboxMessage, row_id, row_at}
use dandori.Store.Outbox.Lease.{lease_row, message_of}
use dandori.Store.Outbox.Mark.{last_error_too_long, holds_lease}
use dandori.App.Error.{internal}
use dandori.Worker.Config.{default_config, empty_report}
use dandori.Worker.Publish.{PublishError, publish_error, transient}
use dandori.Worker.Service.{Completion, failure_context, process_leased}
use dandori.Worker.Service.Batch.{completed_id, row_after, IsSettleable}
use dandori.Worker.Service.Poison.{process_leased-stops}
use dandori.Tests.Data.{Json, worker, waiting}

-- A text of n letters.
repeat : ℕ → String
repeat zero = String.[]
repeat (suc n) = String.◌∷◌ ("x") (repeat n)

char_length-repeat : (n : ℕ) → char_length (repeat n) ≡ n
unfolding char_length repeat
char_length-repeat zero = refl
char_length-repeat (suc n) = omega (arith, char_length-repeat n)

char_length-append : (s t : String) → char_length (append s t) ≡ char_length s + char_length t
unfolding char_length
char_length-append String.[] t = ap char_length (λ i. nil t i) ∙ omega arith
char_length-append (String.◌∷◌ c s) t =
    ap char_length (λ i. cons c s t i) ∙ omega (arith, char_length-append s t)

abbrev leased_rows : List (OutboxRow Json)
leased_rows =
    lease_row 100 130 60 7 (waiting 49 100) ∷ (lease_row 100 130 60 7 (waiting 50 100) ∷ [])

abbrev message : Uuid → OutboxMessage Json
message id = message_of 130 60 7 (waiting id 100)

abbrev error : PublishError
error = publish_error transient (repeat 4001)

abbrev poisoned : Completion Json
poisoned = record { message = message 50; outcome = err error; now = 110; random = 0 }

abbrev published : Completion Json
published = record { message = message 49; outcome = ok tt; now = 105; random = 0 }

own : poisoned.message.lease_owner ≡ worker.actor_id
unfolding message_of
own = refl

held :
    holds_lease 1 poisoned.message.id poisoned.message.lease_token poisoned.message.lease_owner 110
      (lease_row 100 130 60 7 (waiting 50 100))
    ≡ true
unfolding lease_row holds_lease message_of
held = refl

too_long : last_error_too_long (failure_context default_config poisoned error).error_message ≡ true
unfolding last_error_too_long failure_context char_length
too_long = ground (
  arith,
  char_length-append "Transient" (append ": " (repeat 4001)),
  char_length-append ": " (repeat 4001),
  char_length-repeat 4001,
)

distinct : Distinct row_id leased_rows
unfolding lease_row
distinct = (((λ e. ground (arith, e)), tt), (tt, tt))

settleable : IsSettleable default_config worker leased_rows published
unfolding lease_row holds_lease message_of find
settleable = record {
  own = refl;
  row = lease_row 100 130 60 7 (waiting 49 100);
  found = refl;
  held = refl;
  fits = λ e failed. absurd (ground (arith, failed));
}

others : completed_id published ≢ poisoned.message.id
unfolding message_of
others e = ground (arith, e)

there : row_at poisoned.message.id leased_rows ≡ some (lease_row 100 130 60 7 (waiting 50 100))
unfolding lease_row message_of find
there = refl

process_leased-stops_example :
    let (after, result) =
      process_leased default_config worker 90
        ((published ∷ []) ++ (poisoned ∷ []))
        leased_rows
        empty_report in
    (result ≡ err (internal "worker_store_failed" 90))
    × (row_at poisoned.message.id after ≡ some (lease_row 100 130 60 7 (waiting 50 100)))
    × ((k : Uuid) (r : OutboxRow Json)
        → row_at k leased_rows ≡ some r
        → row_at k after ≡ some (row_after default_config k (published ∷ []) r))
    × ((k : Uuid) (r : OutboxRow Json)
        → row_at k leased_rows ≡ some r
        → All (λ d. completed_id d ≢ k) (published ∷ [])
        → row_at k after ≡ some r)
process_leased-stops_example =
    process_leased-stops default_config worker 90 poisoned error refl own too_long []
      (lease_row 100 130 60 7 (waiting 50 100)) held (published ∷ []) leased_rows empty_report
      distinct (tt, tt) (others, tt) (settleable, tt) there
