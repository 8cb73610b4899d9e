-- ===== src/Worker/Publish.antt =====
-- crates/dandori-app-services/src/worker/publish.rs: the HTTP publisher and its circuit breaker.
pub mod Laws
use dandori.Base.{
  ℕ, suc, ◌+◌, ◌*◌, ◌%◌, ◌^◌, String, Bool, true, false, not, ◌&&◌, ◌||◌, Option, none, some, leb,
  ltb, ◌==◌, if◌then◌else◌, Outcome, ok, err,
}
use dandori.Base.Int.{ℤ, pos, pos_part, ltb_ℤ, saturating_add}
use dandori.Base.Text.{append}

pub data PublishErrorKind : Type 0 where
  transient permanent unsupported serialization : PublishErrorKind

abbrev pub is_transient : PublishErrorKind → Bool
is_transient transient = true
is_transient _ = false

pub record PublishError : Type 0 where
  pub kind : PublishErrorKind
  pub message : String

abbrev pub publish_error : PublishErrorKind → String → PublishError
publish_error kind message = record { kind = kind; message = message }

-- The two atomics of the publisher, each read and written once by a call. `u32` and `i64`.
pub record Breaker : Type 0 where
  pub consecutive_failures : ℕ
  pub circuit_open_until_epoch : ℤ

abbrev pub closed_breaker : Breaker
closed_breaker = record { consecutive_failures = 0; circuit_open_until_epoch = pos 0 }

unfoldable pub breaker_open : Breaker → ℤ → Bool
breaker_open b now_epoch = ltb_ℤ now_epoch b.circuit_open_until_epoch

-- Both cells are stored again.
abbrev pub record_success : Breaker → Breaker
record_success b = closed_breaker

-- `fetch_add` wraps around.
unfoldable pub record_transient_failure : ℕ → ℤ → ℤ → Breaker → Breaker
unfolding saturating_add
record_transient_failure failure_threshold cooldown_seconds now_epoch b =
    let next = (b.consecutive_failures + 1) % 2 ^ 32 in
    if failure_threshold == 0 then b else record {
      consecutive_failures = next;
      circuit_open_until_epoch =
          if leb failure_threshold next
          then saturating_add now_epoch cooldown_seconds
          else b.circuit_open_until_epoch;
    }

-- What the upstream answers: no response, with reqwest's error, or a status with its body.
pub data Answer : Type 0 where
  no_response : String → Answer
  response : (status : ℕ) (text : String) → Answer

abbrev pub is_success : ℕ → Bool
is_success status = leb 200 status && ltb status 300

abbrev pub is_server_error : ℕ → Bool
is_server_error status = leb 500 status && ltb status 600

pub record Published : Type 0 where
  pub breaker : Breaker
  -- whether the upstream was asked
  pub sent : Bool
  pub outcome : Outcome PublishError

unfoldable pub rejected : (ℕ → String) → ℕ → String → String
rejected show status text =
    append "http publish rejected with status " (append (show status) (append ": " text))

-- `show` is the status's `Display`, and `answer` what the upstream would answer.
unfoldable pub publish_issue_created : (ℕ → String) → ℕ → ℤ → ℤ → Answer → Breaker → Published
unfolding breaker_open record_transient_failure rejected
publish_issue_created show failure_threshold cooldown_seconds now_epoch answer b =
    if breaker_open b now_epoch
    then record {
      breaker = b;
      sent = false;
      outcome = err (publish_error transient "circuit breaker open; skipping remote call");
    }
    else elim answer [
      | no_response error ↦ record {
        breaker = record_transient_failure failure_threshold cooldown_seconds now_epoch b;
        sent = true;
        outcome = err (publish_error transient (append "http publish request failed: " error));
      }
      | response status text ↦
          if is_success status
          then record { breaker = record_success b; sent = true; outcome = ok tt }
          else if is_server_error status
          then record {
            breaker = record_transient_failure failure_threshold cooldown_seconds now_epoch b;
            sent = true;
            outcome = err (publish_error transient (rejected show status text));
          }
          else record {
            breaker = record_success b;
            sent = true;
            outcome = err (publish_error permanent (rejected show status text));
          }
    ]

-- `retry_backoff_with_jitter` in microseconds; `random` is what the generator gives in
-- `0..jitter_ms`.
unfoldable pub retry_backoff_with_jitter : ℤ → ℕ → ℕ → ℕ
retry_backoff_with_jitter base_seconds jitter_ms random =
    let base = pos_part base_seconds * 1000000 in
    if jitter_ms == 0 then base else base + random * 1000
