-- ===== src/Policy/Laws.antt =====
-- What the policy decides: the matrix of crates/dandori-policy/src/lib.rs.
use dandori.Base.{
  ◌≡◌, ◌↔◌, refl, List, [], ◌∷◌, Option, none, some, Bool, true, false, not, if◌then◌else◌, any,
  find, keep, arith,
}
use dandori.Policy.{
  Role, owner, member, viewer, Action, workspace_read, issue_create, issue_read, issue_update,
  project_read, Resource, workspace_of, Subject, allow, same_action,
}
use dandori.Policy.Matrix.{Matrix, insert, standard, with_override, has_role, decide, evaluate}

-- What a role is for: owners and members do everything, viewers read, and workers do nothing here.
abbrev pub may : Action → Role → Bool
may _ owner = true
may _ member = true
may workspace_read viewer = true
may issue_read viewer = true
may project_read viewer = true
may _ _ = false

any_ext :
    {A : Type 0} (p q : A → Bool) → ((a : A) → p a ≡ q a) → (xs : List A) → any p xs ≡ any q xs
unfolding any
any_ext p q same [] = refl
any_ext p q same (x ∷ xs) = rw (same x, any_ext p q same xs) refl

granted : Action → List Role
granted issue_create = owner ∷ member ∷ []
granted issue_update = owner ∷ member ∷ []
granted _ = owner ∷ member ∷ viewer ∷ []

has_role-granted : (action : Action) (r : Role) → has_role (granted action) r ≡ may action r
unfolding has_role any granted
has_role-granted action r = ground arith

find-standard :
    (action : Action)
    → find (λ entry. same_action entry.0 action) standard ≡ some (action, granted action)
unfolding find standard insert keep granted
find-standard workspace_read = refl
find-standard issue_create = refl
find-standard issue_read = refl
find-standard issue_update = refl
find-standard project_read = refl

decide-standard :
    (action : Action) (roles : List Role)
    → (decide roles (find (λ entry. same_action entry.0 action) standard) ≡ allow)
      ↔ (any (may action) roles ≡ true)
unfolding decide
decide-standard action roles =
    rw
      (
        find-standard action,
        any_ext (has_role (granted action)) (may action) (has_role-granted action) roles,
      )
      (ground arith)

-- The standard matrix allows an action exactly to a subject of the resource's workspace that has a
-- role for it: owner or member for every action, viewer for the three that read; worker gives none.
pub evaluate-standard-eq-allow :
    (subject : Option Subject) (action : Action) (resource : Resource)
    → (evaluate standard subject action resource ≡ allow) ↔ (
        (s : Subject) × (subject ≡ some s)
        × (s.workspace_id ≡ workspace_of resource)
        × (any (may action) s.roles ≡ true))
unfolding evaluate
evaluate-standard-eq-allow none action resource = ground arith
evaluate-standard-eq-allow (some u) action resource = (
  (λ h. (u, refl, ground arith, ground (arith, decide-standard action u.roles))),
  (λ (s, e, own, has).
      ground (arith, decide-standard action u.roles, decide-standard action s.roles)),
)

same_action-eq : (a b : Action) → same_action a b ≡ true → a ≡ b
same_action-eq a b h = ground arith

find-keep_apart :
    (action asked : Action) (matrix : Matrix)
    → same_action action asked ≡ false
    → find
        (λ entry. same_action entry.0 asked)
        (keep (λ entry. not (same_action entry.0 action)) matrix)
      ≡ find (λ entry. same_action entry.0 asked) matrix
unfolding find keep
find-keep_apart action asked [] h = refl
find-keep_apart action asked (entry ∷ matrix) h =
    ground (arith, same_action-eq entry.0 action, find-keep_apart action asked matrix h)

-- An override decides its action by the new roles, and no other action.
evaluate-with_override :
    (matrix : Matrix) (action : Action) (roles : List Role) (s : Subject) (asked : Action)
    (resource : Resource)
    → s.workspace_id ≡ workspace_of resource
    → evaluate (with_override matrix action roles) (some s) asked resource ≡ (
        if same_action action asked
        then decide s.roles (some (action, roles))
        else evaluate matrix (some s) asked resource)
unfolding evaluate with_override insert find
evaluate-with_override matrix action roles s asked resource own =
    ground (arith, own, find-keep_apart action asked matrix)
