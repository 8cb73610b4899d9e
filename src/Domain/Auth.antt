-- ===== src/Domain/Auth.antt =====
-- crates/dandori-domain/src/auth.rs
use dandori.Base.{not, ◌==◌, Outcome, fail_if}
use dandori.Domain.Error.{DomainError, precondition, detail}
use dandori.Domain.Ids.{Uuid, WorkspaceId}

pub record AuthContext : Type 0 where
  pub workspace_id : WorkspaceId
  pub actor_id : Uuid

unfoldable pub enforce_workspace : AuthContext → WorkspaceId → Outcome DomainError
enforce_workspace auth workspace_id = fail_if (not (auth.workspace_id == workspace_id)) (
    precondition
      (detail "workspace_mismatch" "workspace in command does not match authenticated workspace"))
