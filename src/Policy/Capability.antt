-- ===== src/Policy/Capability.antt =====
-- `CapabilityAllowList` of crates/dandori-policy/src/lib.rs
use dandori.Base.{String, List, Option, none, some, not, ◌==◌, str_eq, if◌then◌else◌, any}
use dandori.Policy.{
  Action, workspace_read, issue_create, issue_read, issue_update, project_read, Resource,
  workspace_of, Subject, missing_role, cross_tenant, missing_subject, PolicyDecision, allow, deny,
}

unfoldable pub capability_for : Action → String
capability_for workspace_read = "workspace.read"
capability_for issue_create = "issue.create"
capability_for issue_read = "issue.read"
capability_for issue_update = "issue.update"
capability_for project_read = "project.read"

unfoldable pub evaluate_allow_list :
    List String → Option Subject → Action → Resource → PolicyDecision
unfolding any capability_for
evaluate_allow_list allowed none action resource = deny missing_subject
evaluate_allow_list allowed (some subject) action resource =
    if not (subject.workspace_id == workspace_of resource)
    then deny cross_tenant
    else if any (λ s. str_eq s (capability_for action)) allowed
    then allow
    else deny missing_role
