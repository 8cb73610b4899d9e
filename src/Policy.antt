-- ===== src/Policy.antt =====
-- crates/dandori-policy/src/lib.rs: who may do what.
pub mod Matrix
pub mod Capability
pub mod Laws
use dandori.Base.{
  ℕ, String, List, Outcome, ok, err, Option, none, some, not, ◌==◌, if◌then◌else◌, Bool, true,
  false,
}
use dandori.Domain.Ids.{Uuid}

pub data Role : Type 0 where
  owner member viewer worker : Role

pub data Action : Type 0 where
  workspace_read issue_create issue_read issue_update project_read : Action

pub data Resource : Type 0 where
  workspace : (workspace_id : Uuid) → Resource
  project : (workspace_id project_id : Uuid) → Resource
  issue : (workspace_id issue_id : Uuid) → Resource

abbrev pub workspace_of : Resource → Uuid
workspace_of (Resource.workspace workspace_id) = workspace_id
workspace_of (Resource.project workspace_id project_id) = workspace_id
workspace_of (Resource.issue workspace_id issue_id) = workspace_id

-- The set of the roles is a list here, which is only searched.
pub record Subject : Type 0 where
  pub actor_id : Uuid
  pub workspace_id : Uuid
  pub roles : List Role

pub data DenyReason : Type 0 where
  missing_role cross_tenant missing_subject : DenyReason

abbrev pub code : DenyReason → String
code missing_role = "authz_missing_role"
code cross_tenant = "authz_cross_tenant"
code missing_subject = "authz_missing_subject"

abbrev pub message : DenyReason → String
message missing_role = "subject does not have a role granting this action"
message cross_tenant = "subject's workspace does not match the resource workspace"
message missing_subject = "no subject was provided for this action"

pub data PolicyDecision : Type 0 where
  allow : PolicyDecision
  deny : DenyReason → PolicyDecision

-- `AuthzError` holds the reason.
abbrev pub into_result : PolicyDecision → Outcome DenyReason
into_result allow = ok tt
into_result (deny reason) = err reason

-- The trait `PolicyEngine`.
abbrev pub Evaluate : Type 0
Evaluate = Option Subject → Action → Resource → PolicyDecision

abbrev pub same_role : Role → Role → Bool
same_role owner owner = true
same_role member member = true
same_role viewer viewer = true
same_role worker worker = true
same_role _ _ = false

abbrev pub same_action : Action → Action → Bool
same_action workspace_read workspace_read = true
same_action issue_create issue_create = true
same_action issue_read issue_read = true
same_action issue_update issue_update = true
same_action project_read project_read = true
same_action _ _ = false
