-- ===== src/Store/Outbox/History/Runs.antt =====
-- Stretches of the history of the outbox: which of them keep it well-formed, and what a worker does.
use dandori.Base.{ℕ, ◌<◌, ◌≡◌, List}
use dandori.Domain.Ids.{Uuid}
use dandori.Store.Schema.{OutboxRow}
use dandori.Store.Table.Laws.{Distinct}
use dandori.Store.Outbox.Defs.{row_id}
use dandori.Store.Outbox.History.{Step}
use dandori.Store.Outbox.History.Invariant.{IsWellFormed, Step-Distinct, Step-IsWellFormed}

-- A condition on the steps of a history.
abbrev pub Condition : Type 0 → ℕ → Type 1
Condition J most = (rows after : List (OutboxRow J)) → Step most rows after → Type 0

-- Some steps from one outbox to another, each of which meets the condition.
pub data Steps {J : Type 0} (most : ℕ) (P : Condition J most)
    : List (OutboxRow J) → List (OutboxRow J) → Type 0 where
  no_step : {rows : List (OutboxRow J)} → Steps most P rows rows
  step_then :
      {rows middle after : List (OutboxRow J)} (step : Step most rows middle)
      → P rows middle step
      → Steps most P middle after
      → Steps most P rows after

module _ {J : Type 0} {most : ℕ} {P : Condition J most} where
  pub join :
      {rows middle after : List (OutboxRow J)}
      → Steps most P rows middle
      → Steps most P middle after
      → Steps most P rows after
  join Steps.no_step later = later
  join (Steps.step_then step p rest) later = Steps.step_then step p (join rest later)

  pub Steps-Distinct :
      {rows after : List (OutboxRow J)}
      → Steps most P rows after
      → Distinct row_id rows
      → Distinct row_id after
  Steps-Distinct Steps.no_step d = d
  Steps-Distinct (Steps.step_then {rows} {middle} step p rest) d =
      Steps-Distinct rest (Step-Distinct most rows middle step d)

  pub Steps-IsWellFormed :
      0 < most
      → {rows after : List (OutboxRow J)} → Steps most P rows after
      → IsWellFormed most rows
      → IsWellFormed most after
  Steps-IsWellFormed positive Steps.no_step w = w
  Steps-IsWellFormed positive (Steps.step_then {rows} {middle} step p rest) w =
      Steps-IsWellFormed positive rest (Step-IsWellFormed most positive rows middle step w)

-- What a worker does: it leases, settles and cleans up in its own name, and enqueues nothing.
abbrev pub IsWorkers : {J : Type 0} {most : ℕ} → Uuid → Condition J most
IsWorkers w _ _ (Step.enqueued c event id payload at rows unused) = ⊥
IsWorkers w _ _ (Step.leased_batch locked auth now lease_for max_items token rows) =
    auth.actor_id ≡ w
IsWorkers w _ _ (Step.marked_delivered auth id token owner now rows settled h) = auth.actor_id ≡ w
IsWorkers w _ _ (Step.marked_failed auth id failure rows settled m h) = auth.actor_id ≡ w
IsWorkers w _ _ (Step.cleaned auth delivered_before dead_letter_before rows) = auth.actor_id ≡ w
