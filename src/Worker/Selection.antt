-- ===== src/Worker/Selection.antt =====
-- `with_publisher_selection` of crates/dandori-app-services/src/worker/service.rs
use Prim.Native.Char.{Char, code}
use dandori.Base.{
  ℕ, ◌+◌, ◌≡◌, ◌↔◌, String, Bool, true, false, ◌&&◌, ◌||◌, Option, none, some, leb, ◌==◌, str_eq,
  if◌then◌else◌, Result, ok, err, arith, refl, ap,
}
use dandori.Domain.Ids.{Uuid}
use dandori.App.Error.{AppServiceError, internal}
use dandori.Worker.Publish.{PublishError}

-- Which publisher the service is wired with.
pub data Selection (C : Type 0) : Type 0 where
  http : C → Selection C
  noop : Selection C

abbrev lower : Char → ℕ
lower ch = let c = code ch in if leb 65 c && leb c 90 then c + 32 else c

unfoldable pub eq_ignore_ascii_case : String → String → Bool
eq_ignore_ascii_case String.[] String.[] = true
eq_ignore_ascii_case String.[] (String.◌∷◌ d t) = false
eq_ignore_ascii_case (String.◌∷◌ c s) String.[] = false
eq_ignore_ascii_case (String.◌∷◌ c s) (String.◌∷◌ d t) =
    lower c == lower d && eq_ignore_ascii_case s t

unfoldable pub allows_noop : Option String → Bool
unfolding eq_ignore_ascii_case
allows_noop none = false
allows_noop (some value) = str_eq value "1" || eq_ignore_ascii_case value "true"

-- `build` makes the HTTP client for an endpoint, which belongs to reqwest.
unfoldable pub with_publisher_selection :
    {C : Type 0}
    → (String → Result C PublishError)
    → Uuid
    → Option String
    → Option String
    → Result (Selection C) AppServiceError
unfolding allows_noop
with_publisher_selection build correlation (some endpoint) allow_noop_raw = elim (build endpoint) [
  | ok client ↦ ok (http client)
  | err error ↦ err (internal "publisher_init_failed" correlation)
]
with_publisher_selection build correlation none allow_noop_raw =
    if allows_noop allow_noop_raw
    then ok noop
    else err (internal "publisher_not_configured" correlation)

-- The service is wired with the no-op publisher exactly if no endpoint is configured and the opt-in
-- is "1" or, in any case, "true"; with an HTTP publisher exactly if an endpoint is configured and
-- its client can be built; and not at all otherwise.
selection_fails_closed :
    {C : Type 0} (build : String → Result C PublishError) (correlation : Uuid)
    (url raw : Option String)
    → ((with_publisher_selection build correlation url raw ≡ ok noop)
        ↔ ((url ≡ none) × (allows_noop raw ≡ true)))
      × ((client : C)
          → (with_publisher_selection build correlation url raw ≡ ok (http client))
            ↔ ((endpoint : String) × (url ≡ some endpoint) × (build endpoint ≡ ok client)))
unfolding with_publisher_selection
selection_fails_closed build correlation none raw =
    (ground arith, λ client. (λ h. absurd (ground arith), λ h. ground arith))
selection_fails_closed build correlation (some endpoint) raw =
    (ground arith, λ client. (λ h. (endpoint, refl, ground arith), λ h. ground (arith, ap build)))
