-- ===== src/Store/Tenants/Laws.antt =====
-- Workspaces and projects are written and read within their tenant.
use dandori.Base.{◌≡◌, ◌↔◌, ◌≢◌, true, false, some, ◌∷◌, ◌==◌, any, find, arith, ok}
use dandori.Domain.Ids.{Uuid, Instant}
use dandori.Domain.Model.{Workspace, Project}
use dandori.Domain.Auth.{AuthContext}
use dandori.Store.Schema.{Db}
use dandori.Store.Issue.Reservation.{breaks_length, workspace_exists}
use dandori.Store.Partition.{in_window, full}
use dandori.Store.Tenants.{
  WorkspaceWriteInput, ProjectWriteInput, shard_bucket_for, new_workspace, map_workspace_model,
  create_workspace, get_workspace, new_project, map_project_model, create_project, get_project,
  is_workflow_version,
}

module _ {J : Type 0} (auth : AuthContext) (now : Instant) (db after : Db J) where
  -- `create_workspace` commits exactly for the caller's own workspace with a fitting name and an id
  -- that is not taken; the caller then reads what was returned, under its id, and the bucket of the
  -- new row lies in the window of all buckets.
  pub create_workspace-eq-ok :
      (input : WorkspaceWriteInput) (made : Workspace)
      → ((create_workspace auth input now db ≡ ok (after, made)) ↔ (
          (input.workspace_id ≡ auth.workspace_id)
          × (breaks_length 200 input.name ≡ false)
          × (any (λ w. w.id == input.workspace_id) db.workspaces ≡ false)
          × (after ≡ record db { workspaces = new_workspace input now ∷ db.workspaces })
          × (made ≡ map_workspace_model (new_workspace input now))))
        × (create_workspace auth input now db ≡ ok (after, made)
            → get_workspace auth input.workspace_id after ≡ some made)
        × (in_window full (new_workspace input now) ≡ true)
  unfolding create_workspace get_workspace find new_workspace in_window shard_bucket_for
  create_workspace-eq-ok input made = (ground arith, (λ h. ground arith), ground arith)

  -- `create_project` commits exactly for the caller's own workspace, which exists and has the
  -- workflow version, with a fitting name and an id that is not taken; the caller then reads what
  -- was returned, and callers of other workspaces read what they read before.
  pub create_project-eq-ok :
      (input : ProjectWriteInput) (made : Project)
      → ((create_project auth input now db ≡ ok (after, made)) ↔ (
          (any (is_workflow_version auth.workspace_id input) db.workflow_versions ≡ true)
          × (input.workspace_id ≡ auth.workspace_id)
          × (breaks_length 200 input.name ≡ false)
          × (any (λ p. p.id == input.project_id) db.projects ≡ false)
          × (workspace_exists input.workspace_id db.workspaces ≡ true)
          × (after ≡ record db { projects = new_project input now ∷ db.projects })
          × (made ≡ map_project_model (new_project input now))))
        × (create_project auth input now db ≡ ok (after, made)
            → (get_project auth input.project_id after ≡ some made)
              × ((other : AuthContext) (id : Uuid)
                  → other.workspace_id ≢ auth.workspace_id
                  → get_project other id after ≡ get_project other id db))
  unfolding create_project get_project find new_project
  create_project-eq-ok input made =
      (ground arith, (λ h. (ground arith, (λ other id apart. ground arith))))
