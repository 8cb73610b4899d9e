-- ===== src/Plans/Workflow.antt =====
-- crates/dandori-workflow/src/lib.rs
use dandori.Base.{
  String, Bool, true, false, not, ◌||◌, List, [], ◌∷◌, is_nil, str_eq, ◌≡◌, ◌↔◌, refl, arith,
  Outcome, ok, fail_if, ◌>>◌, All, any,
}
use dandori.Base.Text.{is_empty, trim, all_chars, is_whitespace, is_empty-trim}

pub data CrateError : Type 0 where
  validation : String → CrateError

pub record Transition : Type 0 where
  pub from : String
  pub to : String
  pub action : String

pub record WorkflowSpec : Type 0 where
  pub name : String
  pub initial_state : String
  pub states : List String
  pub transitions : List Transition

-- `state_set.contains(state)`
unfoldable pub is_state : List String → String → Bool
unfolding any
is_state states state = any (λ s. str_eq s state) states

unfoldable pub check_transitions : List String → List Transition → Outcome CrateError
unfolding is_state trim is_empty
check_transitions states [] = ok tt
check_transitions states (t ∷ ts) = do
  fail_if (is_empty (trim t.action)) (validation "transition action must not be empty")
  fail_if (not (is_state states t.from) || not (is_state states t.to))
      (validation "transition endpoints must reference known states")
  check_transitions states ts

unfoldable pub validate : WorkflowSpec → Outcome CrateError
unfolding check_transitions is_state trim is_empty
validate w = do
  fail_if (is_empty (trim w.name)) (validation "workflow name must not be empty")
  fail_if (is_nil w.states) (validation "workflow must contain at least one state")
  fail_if (not (is_state w.states w.initial_state))
      (validation "initial state must be part of the declared state set")
  check_transitions w.states w.transitions

abbrev pub IsBlank : String → Type 0
IsBlank s = all_chars is_whitespace s ≡ true

-- A transition with an action, between declared states.
pub record IsTransition (states : List String) (t : Transition) : Type 0 where
  pub action : ¬ IsBlank t.action
  pub from : is_state states t.from ≡ true
  pub to : is_state states t.to ≡ true

check_transitions-eq-ok :
    (states : List String) (ts : List Transition)
    → (check_transitions states ts ≡ ok tt) ↔ All (IsTransition states) ts
unfolding check_transitions
check_transitions-eq-ok states [] = (λ h. tt, λ h. refl)
check_transitions-eq-ok states (t ∷ ts) = (
  λ h. (
    record {
      action = λ b. ground (arith, is_empty-trim t.action);
      from = ground arith;
      to = ground arith;
    },
    (check_transitions-eq-ok states ts).0 (ground arith),
  ),
  λ h. ground (
    arith,
    is_empty-trim t.action,
    h.0.action,
    h.0.from,
    h.0.to,
    (check_transitions-eq-ok states ts).1 h.1,
  ),
)

declared : (states : List String) (s : String) → is_state states s ≡ true → is_nil states ≡ false
unfolding is_state any
declared [] s h = absurd (ground arith)
declared (t ∷ ts) s h = refl

-- A workflow is accepted exactly if its name is not blank, its initial state is declared, and each
-- of its transitions has an action and joins declared states.
pub validate-well_formed :
    (w : WorkflowSpec)
    → (validate w ≡ ok tt) ↔ (
        (¬ IsBlank w.name)
        × (is_state w.states w.initial_state ≡ true)
        × All (IsTransition w.states) w.transitions)
unfolding validate
validate-well_formed w = (
  λ h. (
    λ b. ground (arith, is_empty-trim w.name),
    ground arith,
    (check_transitions-eq-ok w.states w.transitions).0 (ground arith),
  ),
  λ (name, initial, transitions). ground (
    arith,
    is_empty-trim w.name,
    name,
    declared w.states w.initial_state initial,
    (check_transitions-eq-ok w.states w.transitions).1 transitions,
  ),
)
