-- ===== src/Worker/Publish/Laws.antt =====
-- When the publisher asks the upstream, and how the breaker opens.
use dandori.Base.{
  ℕ, ◌+◌, ◌^◌, ◌≡◌, ◌↔◌, ◌<◌, ap, ◌∙◌, Bool, true, false, String, List, [], ◌∷◌, length, All, ok,
  err, arith,
}
use dandori.Base.Int.{ℤ, pos, negsuc, ◌≤ℤ◌, saturating_add}
use dandori.Worker.Publish.{
  publish_error, transient, Breaker, closed_breaker, breaker_open, record_transient_failure, Answer,
  no_response, response, is_success, is_server_error, publish_issue_created,
}

abbrev pub is_delivery : Answer → Bool
is_delivery (no_response error) = false
is_delivery (response status text) = is_success status

-- No response, or a server error.
abbrev pub is_failure : Answer → Bool
is_failure (no_response error) = true
is_failure (response status text) = is_server_error status

module _ (show : ℕ → String) (failure_threshold : ℕ) (cooldown_seconds : ℤ) where
  asked :
      (now : ℤ) (answer : Answer) (b : Breaker)
      → breaker_open b now ≡ false
      → let result = publish_issue_created show failure_threshold cooldown_seconds now answer b in
        (result.sent ≡ true) × ((result.outcome ≡ ok tt) ↔ (is_delivery answer ≡ true))
  unfolding publish_issue_created
  asked now (no_response error) b h = rw h (ground arith)
  asked now (response status text) b h = rw h (ground arith)

  -- While the breaker is open, the upstream is not asked, the breaker stays as it is and the answer
  -- is a transient error; otherwise it is asked, and the event counts as published exactly if the
  -- upstream answers with a status of 200 to 299.
  publish-breaker :
      (now : ℤ) (answer : Answer) (b : Breaker)
      → let result = publish_issue_created show failure_threshold cooldown_seconds now answer b in
        (breaker_open b now ≡ true
          → (result.sent ≡ false)
            × (result.breaker ≡ b)
            × (result.outcome
                ≡ err (publish_error transient "circuit breaker open; skipping remote call")))
        × (breaker_open b now ≡ false
            → (result.sent ≡ true) × ((result.outcome ≡ ok tt) ↔ (is_delivery answer ≡ true)))
  unfolding publish_issue_created
  publish-breaker now answer b =
      (λ h. (ground arith, ground arith, ground arith), λ h. asked now answer b h)

  -- The calls one after another, each with its time and what the upstream answers.
  unfoldable pub after_calls : List (ℤ × Answer) → Breaker → Breaker
  unfolding publish_issue_created
  after_calls [] b = b
  after_calls (call ∷ calls) b =
      after_calls calls
        (publish_issue_created show failure_threshold cooldown_seconds call.0 call.1 b).breaker

  -- A call after the epoch that fails.
  abbrev pub Fails : ℤ × Answer → Type 0
  Fails call = (pos 0 ≤ℤ call.0) × (is_failure call.1 ≡ true)

  failure_counts :
      (call : ℤ × Answer) (n : ℕ)
      → Fails call
      → n + 1 < failure_threshold
      → failure_threshold < 2 ^ 32
      → (publish_issue_created show failure_threshold cooldown_seconds call.0 call.1
          (record { consecutive_failures = n; circuit_open_until_epoch = pos 0 })).breaker
        ≡ record { consecutive_failures = n + 1; circuit_open_until_epoch = pos 0 }
  unfolding publish_issue_created breaker_open record_transient_failure
  failure_counts (pos now, no_response e) n f below small = ground arith
  failure_counts (pos now, response status text) n f below small = ground arith
  failure_counts (negsuc now, answer) n f below small = absurd (ground arith)

  failures_count :
      (calls : List (ℤ × Answer)) (n : ℕ)
      → All Fails calls
      → n + length calls < failure_threshold
      → failure_threshold < 2 ^ 32
      → after_calls calls (record { consecutive_failures = n; circuit_open_until_epoch = pos 0 })
        ≡ record { consecutive_failures = n + length calls; circuit_open_until_epoch = pos 0 }
  unfolding after_calls
  failures_count [] n f below small =
      ap (λ m. record { consecutive_failures = m; circuit_open_until_epoch = pos 0 }) (omega arith)
  failures_count (call ∷ calls) n f below small =
      let first = failure_counts call n f.0 (omega arith) small in
      let rest = failures_count calls (n + 1) f.1 (omega arith) small in
      ap (after_calls calls) first
      ∙ rest
      ∙ ap (λ m. record { consecutive_failures = m; circuit_open_until_epoch = pos 0 })
          (omega arith)

  trips :
      (call : ℤ × Answer) (n : ℕ)
      → Fails call
      → n + 1 ≡ failure_threshold
      → failure_threshold < 2 ^ 32
      → (publish_issue_created show failure_threshold cooldown_seconds call.0 call.1
          (record { consecutive_failures = n; circuit_open_until_epoch = pos 0 })).breaker
        ≡ record {
          consecutive_failures = failure_threshold;
          circuit_open_until_epoch = saturating_add call.0 cooldown_seconds;
        }
  unfolding publish_issue_created breaker_open record_transient_failure
  trips (pos now, no_response e) n f full small = ground arith
  trips (pos now, response status text) n f full small = ground arith
  trips (negsuc now, answer) n f full small = absurd (ground arith)

  -- On a closed breaker, fewer failing calls than the threshold leave it closed, and the call that
  -- reaches the threshold opens it until the cool-down after that call has passed.
  pub breaker_trips :
      (calls : List (ℤ × Answer)) (last : ℤ × Answer)
      → All Fails calls
      → Fails last
      → length calls + 1 ≡ failure_threshold
      → failure_threshold < 2 ^ 32
      → (after_calls calls closed_breaker
          ≡ record { consecutive_failures = length calls; circuit_open_until_epoch = pos 0 })
        × (after_calls (last ∷ []) (after_calls calls closed_breaker) ≡ record {
          consecutive_failures = failure_threshold;
          circuit_open_until_epoch = saturating_add last.0 cooldown_seconds;
        })
  unfolding after_calls
  breaker_trips calls last fs f full small =
      let before : after_calls calls closed_breaker
          ≡ record { consecutive_failures = length calls; circuit_open_until_epoch = pos 0 } =
        failures_count calls 0 fs (omega arith) small
        ∙ ap (λ m. record { consecutive_failures = m; circuit_open_until_epoch = pos 0 })
            (omega arith) in
      (before, rw before (trips last (length calls) f full small))
