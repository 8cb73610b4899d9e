-- ===== src/Policy/Matrix.antt =====
-- `RoleMatrixPolicy` of crates/dandori-policy/src/lib.rs
use dandori.Base.{
  List, [], ◌∷◌, Option, none, some, not, ◌==◌, if◌then◌else◌, Bool, any, find, keep,
}
use dandori.Policy.{
  Role, owner, member, viewer, Action, workspace_read, issue_create, issue_read, issue_update,
  project_read, Resource, workspace_of, Subject, missing_role, cross_tenant, missing_subject,
  PolicyDecision, allow, deny, same_role, same_action,
}

-- The map has at most one entry to an action: `insert` replaces.
abbrev pub Matrix : Type 0
Matrix = List (Action × List Role)

unfoldable pub insert : Action → List Role → Matrix → Matrix
unfolding keep
insert action roles matrix =
    (action, roles) ∷ keep (λ entry. not (same_action entry.0 action)) matrix

unfoldable pub standard : Matrix
unfolding insert
standard = insert project_read (owner ∷ member ∷ viewer ∷ []) (
    insert issue_update (owner ∷ member ∷ []) (
      insert issue_read (owner ∷ member ∷ viewer ∷ []) (
        insert issue_create (owner ∷ member ∷ [])
          (insert workspace_read (owner ∷ member ∷ viewer ∷ []) []))))

unfoldable pub with_override : Matrix → Action → List Role → Matrix
unfolding insert
with_override matrix action roles = insert action roles matrix

unfoldable pub has_role : List Role → Role → Bool
unfolding any
has_role roles role = any (λ r. same_role r role) roles

unfoldable pub decide : List Role → Option (Action × List Role) → PolicyDecision
unfolding any has_role
decide roles none = deny missing_role
decide roles (some entry) = if any (has_role entry.1) roles then allow else deny missing_role

unfoldable pub evaluate : Matrix → Option Subject → Action → Resource → PolicyDecision
unfolding decide find
evaluate matrix none action resource = deny missing_subject
evaluate matrix (some subject) action resource =
    if not (subject.workspace_id == workspace_of resource)
    then deny cross_tenant
    else decide subject.roles (find (λ entry. same_action entry.0 action) matrix)
