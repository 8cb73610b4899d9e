-- ===== src/Store/Tenants.antt =====
-- crates/dandori-store/src/repositories/workspace.rs and project.rs, with `shard_bucket_for` of
-- crates/dandori-store/src/entities.rs. `now` is the clock of the database.
pub mod Laws
use dandori.Base.{
  ℕ, String, Bool, not, ◌&&◌, Option, none, some, ◌∷◌, ◌%◌, ◌==◌, any, find, Result, ok, fail_if,
  ◌>>◌, ◌^◌,
}
use dandori.Domain.Ids.{Uuid, Instant}
use dandori.Domain.Model.{Workspace, Project}
use dandori.Domain.Auth.{AuthContext}
use dandori.Store.Schema.{WorkspaceRow, WorkflowVersionRow, ProjectRow, Db}
use dandori.Store.Error.{
  StoreError, sea_orm, unique_violation, check_violation, foreign_key_violation,
  row_security_violation, workflow_version_not_found,
}
use dandori.Store.Issue.Reservation.{breaks_length, workspace_exists}

pub record WorkspaceWriteInput : Type 0 where
  pub workspace_id : Uuid
  pub name : String

pub record ProjectWriteInput : Type 0 where
  pub project_id : Uuid
  pub workspace_id : Uuid
  pub name : String
  pub workflow_version_id : Uuid

-- The last two bytes of the UUID, which is a big-endian number.
unfoldable pub shard_bucket_for : Uuid → ℕ
shard_bucket_for id = id % 2 ^ 16 % 1024

unfoldable pub new_workspace : WorkspaceWriteInput → Instant → WorkspaceRow
unfolding shard_bucket_for
new_workspace input now = record {
  id = input.workspace_id;
  name = input.name;
  shard_bucket = shard_bucket_for input.workspace_id;
  row_version = 0;
  created_at = now;
  updated_at = now;
}

abbrev pub map_workspace_model : WorkspaceRow → Workspace
map_workspace_model w = record {
  id = w.id;
  name = w.name;
  row_version = w.row_version;
  created_at = w.created_at;
  updated_at = w.updated_at;
}

unfoldable pub new_project : ProjectWriteInput → Instant → ProjectRow
new_project input now = record {
  id = input.project_id;
  workspace_id = input.workspace_id;
  name = input.name;
  workflow_version_id = input.workflow_version_id;
  row_version = 0;
  created_at = now;
  updated_at = now;
}

abbrev pub map_project_model : ProjectRow → Project
map_project_model p = record {
  id = p.id;
  workspace_id = p.workspace_id;
  name = p.name;
  workflow_version_id = p.workflow_version_id;
  row_version = p.row_version;
  created_at = p.created_at;
  updated_at = p.updated_at;
}

abbrev pub map_option : {A B : Type 0} → (A → B) → Option A → Option B
map_option f none = none
map_option f (some a) = some (f a)

unfoldable pub is_workflow_version : Uuid → ProjectWriteInput → WorkflowVersionRow → Bool
is_workflow_version tenant input v =
    v.workspace_id == tenant
    && v.workspace_id == input.workspace_id
    && v.id == input.workflow_version_id

module _ {J : Type 0} where
  unfoldable pub create_workspace :
      AuthContext → WorkspaceWriteInput → Instant → Db J → Result (Db J × Workspace) StoreError
  unfolding breaks_length new_workspace any
  create_workspace auth input now db = do
    fail_if (not (input.workspace_id == auth.workspace_id)) (sea_orm row_security_violation)
    fail_if (breaks_length 200 input.name) (sea_orm check_violation)
    fail_if (any (λ w. w.id == input.workspace_id) db.workspaces) (sea_orm unique_violation)
    let row = new_workspace input now
    ok (record db { workspaces = row ∷ db.workspaces }, map_workspace_model row)

  -- Of the rows that the policy shows, which is the row of the tenant alone.
  unfoldable pub get_workspace : AuthContext → Uuid → Db J → Option Workspace
  unfolding find
  get_workspace auth workspace_id db =
      map_option map_workspace_model
        (find (λ w. w.id == auth.workspace_id && w.id == workspace_id) db.workspaces)

  unfoldable pub create_project :
      AuthContext → ProjectWriteInput → Instant → Db J → Result (Db J × Project) StoreError
  unfolding breaks_length new_project is_workflow_version workspace_exists any
  create_project auth input now db = do
    fail_if (not (any (is_workflow_version auth.workspace_id input) db.workflow_versions))
        workflow_version_not_found
    fail_if (not (input.workspace_id == auth.workspace_id)) (sea_orm row_security_violation)
    fail_if (breaks_length 200 input.name) (sea_orm check_violation)
    fail_if (any (λ p. p.id == input.project_id) db.projects) (sea_orm unique_violation)
    fail_if (not (workspace_exists input.workspace_id db.workspaces))
        (sea_orm foreign_key_violation)
    let row = new_project input now
    ok (record db { projects = row ∷ db.projects }, map_project_model row)

  unfoldable pub get_project : AuthContext → Uuid → Db J → Option Project
  unfolding find
  get_project auth project_id db =
      map_option map_project_model
        (find (λ p. p.workspace_id == auth.workspace_id && p.id == project_id) db.projects)
