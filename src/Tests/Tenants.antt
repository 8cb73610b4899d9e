-- ===== src/Tests/Tenants.antt =====
-- Partitions, workspaces and projects.
use dandori.Base.{◌≡◌, ◌≢◌, ◌↔◌, ◌<◌, refl, true, false, some, List, [], ◌∷◌, ok, any, ◌==◌, arith}
use dandori.Domain.Ids.{Uuid}
use dandori.Domain.Model.{Workspace, Project}
use dandori.Domain.Auth.{AuthContext}
use dandori.Store.Schema.{Db, PartitionLease}
use dandori.Store.Table.{contains}
use dandori.Store.Issue.Reservation.{breaks_length, workspace_exists}
use dandori.Store.Partition.{full, in_window, lease_at, acquire_partitions, release_partitions}
use dandori.Store.Partition.Laws.{Acquires, IsTaken, acquire_partitions-Acquires}
use dandori.Store.Partition.Exclusive.{OthersStep, OthersSteps, acquire_exclusive}
use dandori.Store.Tenants.{
  WorkspaceWriteInput, ProjectWriteInput, new_workspace, map_workspace_model, create_workspace,
  get_workspace, new_project, map_project_model, create_project, get_project, is_workflow_version,
}
use dandori.Store.Tenants.Laws.{create_workspace-eq-ok, create_project-eq-ok}
use dandori.Tests.Data.{Json, tables, worker, stranger, workspace_1}

acquire_partitions-Acquires_example :
    Acquires 7 100 160 [] (acquire_partitions [] 7 100 160 64 full (workspace_1 ∷ []) []) 1
acquire_partitions-Acquires_example =
    acquire_partitions-Acquires [] 7 100 160 64 full (workspace_1 ∷ []) [] 1

acquired : contains 1 (acquire_partitions [] 7 100 160 64 full (workspace_1 ∷ []) []).1 ≡ true
unfolding acquire_partitions contains
acquired = refl

abbrev other_worker : Uuid
other_worker = 8

apart : other_worker ≢ 7
apart e = ground (arith, e)

soon : 110 < 160
soon = omega arith

abbrev after_first : List PartitionLease
after_first = (acquire_partitions [] 7 100 160 64 full (workspace_1 ∷ []) []).0

abbrev after_second : List PartitionLease
after_second = (acquire_partitions [] other_worker 105 170 64 full (workspace_1 ∷ []) after_first).0

abbrev after_release : List PartitionLease
after_release = (release_partitions other_worker (1 ∷ []) after_second).0

meanwhile : OthersSteps 7 160 after_first after_release
meanwhile =
    OthersSteps.step_then
      (OthersStep.acquires [] other_worker 105 170 64 full (workspace_1 ∷ []) after_first apart
        (omega arith))
      (OthersSteps.step_then (OthersStep.releases other_worker (1 ∷ []) after_second apart)
        OthersSteps.no_step)

acquire_exclusive_example :
    IsTaken 7 100 160 1 (lease_at 1 after_release)
    × (contains 1
          (acquire_partitions [] other_worker 110 170 64 full (workspace_1 ∷ []) after_release).1
        ≡ false)
acquire_exclusive_example =
    acquire_exclusive [] 7 100 160 64 full (workspace_1 ∷ []) [] after_release [] other_worker 110
      170 64 full (workspace_1 ∷ []) 1 acquired meanwhile apart soon

abbrev workspace_input : WorkspaceWriteInput
workspace_input = record { workspace_id = 2; name = "Other" }

abbrev made_workspace : Workspace
made_workspace = map_workspace_model (new_workspace workspace_input 100)

abbrev with_workspace : Db Json
with_workspace = record tables {
  workspaces = new_workspace workspace_input 100 ∷ tables.workspaces;
}

create_workspace-eq-ok_example :
    ((create_workspace stranger workspace_input 100 tables ≡ ok (with_workspace, made_workspace))
      ↔ ((workspace_input.workspace_id ≡ stranger.workspace_id)
          × (breaks_length 200 workspace_input.name ≡ false)
          × (any (λ w. w.id == workspace_input.workspace_id) tables.workspaces ≡ false)
          × (with_workspace ≡ record tables {
            workspaces = new_workspace workspace_input 100 ∷ tables.workspaces;
          })
          × (made_workspace ≡ map_workspace_model (new_workspace workspace_input 100))))
    × (create_workspace stranger workspace_input 100 tables ≡ ok (with_workspace, made_workspace)
        → get_workspace stranger workspace_input.workspace_id with_workspace ≡ some made_workspace)
    × (in_window full (new_workspace workspace_input 100) ≡ true)
create_workspace-eq-ok_example =
    create_workspace-eq-ok stranger 100 tables with_workspace workspace_input made_workspace

abbrev project_input : ProjectWriteInput
project_input = record { project_id = 4; workspace_id = 1; name = "New"; workflow_version_id = 5 }

abbrev made_project : Project
made_project = map_project_model (new_project project_input 100)

abbrev with_project : Db Json
with_project = record tables { projects = new_project project_input 100 ∷ tables.projects }

create_project-eq-ok_example :
    ((create_project worker project_input 100 tables ≡ ok (with_project, made_project)) ↔ (
      (any (is_workflow_version worker.workspace_id project_input) tables.workflow_versions ≡ true)
      × (project_input.workspace_id ≡ worker.workspace_id)
      × (breaks_length 200 project_input.name ≡ false)
      × (any (λ p. p.id == project_input.project_id) tables.projects ≡ false)
      × (workspace_exists project_input.workspace_id tables.workspaces ≡ true)
      × (with_project
          ≡ record tables { projects = new_project project_input 100 ∷ tables.projects })
      × (made_project ≡ map_project_model (new_project project_input 100))))
    × (create_project worker project_input 100 tables ≡ ok (with_project, made_project)
        → (get_project worker project_input.project_id with_project ≡ some made_project)
          × ((other : AuthContext) (id : Uuid)
              → other.workspace_id ≢ worker.workspace_id
              → get_project other id with_project ≡ get_project other id tables))
create_project-eq-ok_example =
    create_project-eq-ok worker 100 tables with_project project_input made_project
