-- ===== src/Plans/Orchestrator.antt =====
-- crates/dandori-orchestrator/src/lib.rs
use dandori.Base.{String, List, any, is_nil, Result, Outcome, ok, fail_if, ◌>>◌}
use dandori.Base.Text.{is_empty, trim}
use dandori.Domain.Ids.{Uuid}

pub data CrateError : Type 0 where
  validation : String → CrateError

pub record OrchestrationRequest : Type 0 where
  pub workspace_id : Uuid
  pub correlation_id : Uuid
  pub steps : List String

pub data OrchestrationStatus : Type 0 where
  accepted rejected : OrchestrationStatus

unfoldable pub validate : OrchestrationRequest → Outcome CrateError
unfolding any trim is_empty
validate request = do
  fail_if (is_nil request.steps) (validation "orchestration requires at least one step")
  fail_if (any (λ step. is_empty (trim step)) request.steps)
      (validation "orchestration steps must be non-empty")
  ok tt

-- The trait.
pub record Orchestrator : Type 0 where
  pub submit : OrchestrationRequest → Result OrchestrationStatus CrateError

unfoldable pub validation_only_submit : OrchestrationRequest → Result OrchestrationStatus CrateError
unfolding validate
validation_only_submit request = do validate request; ok accepted

unfoldable pub validation_only_orchestrator : Orchestrator
unfolding validation_only_submit
validation_only_orchestrator = record { submit = validation_only_submit }
