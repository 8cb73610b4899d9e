-- ===== src/App/Service/Errors.antt =====
-- What the service lets its callers see of a failure.
use dandori.Base.{
  ◌≡◌, refl, subst, Option, none, some, Result, ok, err, map_err, ok_or, ◌>>=◌, Result-cases, inl,
  inr, arith, String,
}
use dandori.Domain.Error.{DomainError}
use dandori.Domain.Ids.{Uuid, new_key}
use dandori.Domain.Command.{
  CreateIssueCommandV1, validate_issue, map_missing_project_precondition, map_duplicate_conflict,
}
use dandori.Domain.Auth.{AuthContext, enforce_workspace}
use dandori.Store.Schema.{Db}
use dandori.Store.Error.{StoreError}
use dandori.Store.Issue.Create.{create_issue_transactional, get_issue}
use dandori.Policy.{DenyReason, into_result, Action, issue_create, issue_read, Resource}
use dandori.App.Error.{AppServiceError, ErrorKind, internal_message}
use dandori.App.Contract.{CreateIssueRequest}
use dandori.App.Service.{
  Services, RequestIds, map_domain_error, map_store_error, map_store_error_read, enforce_policy,
  denied, subject_from_auth, create_issue_fingerprint, with_version, command_of, event_of,
  create_issue, get_issue_by_id,
}

-- An internal error shows the constant message alone.
abbrev pub IsSanitised : AppServiceError → Type 0
IsSanitised e = e.kind ≡ ErrorKind.infrastructure → e.message ≡ internal_message

-- If a result is an error, it is sanitised.
abbrev pub FailsSanitised : {A : Type 0} → Result A AppServiceError → Type 0
FailsSanitised {A} r = (e : AppServiceError) → r ≡ err e → IsSanitised e

map_domain_error-IsSanitised :
    (correlation : Uuid) (d : DomainError) → IsSanitised (map_domain_error correlation d)
unfolding map_domain_error
map_domain_error-IsSanitised correlation (DomainError.infrastructure d) = λ h. refl
map_domain_error-IsSanitised correlation d = λ h. ground arith

map_store_error-IsSanitised :
    (show : Uuid → String) (correlation : Uuid) (c : CreateIssueCommandV1) (x : StoreError)
    → IsSanitised (map_store_error show correlation c x)
unfolding map_store_error
map_store_error-IsSanitised show correlation c (StoreError.domain d) =
    map_domain_error-IsSanitised correlation d
map_store_error-IsSanitised show correlation c StoreError.project_not_found =
    map_domain_error-IsSanitised correlation (map_missing_project_precondition show c)
map_store_error-IsSanitised show correlation c StoreError.idempotency_conflict =
    map_domain_error-IsSanitised correlation (map_duplicate_conflict c)
map_store_error-IsSanitised show correlation c x = λ h. ground arith

map_store_error_read-IsSanitised :
    (correlation : Uuid) (x : StoreError) → IsSanitised (map_store_error_read correlation x)
unfolding map_store_error_read
map_store_error_read-IsSanitised correlation (StoreError.domain d) =
    map_domain_error-IsSanitised correlation d
map_store_error_read-IsSanitised correlation x = λ h. refl

denied-IsSanitised :
    (correlation : Uuid) (reason : DenyReason) → IsSanitised (denied correlation reason)
denied-IsSanitised correlation reason h = absurd (ground arith)

err-FailsSanitised :
    {A : Type 0} (x : AppServiceError) → IsSanitised x → FailsSanitised {A = A} (err x)
err-FailsSanitised x h e p = let same : x ≡ e = ground arith in subst IsSanitised same h

-- A chain fails sanitised if its steps do.
map_err-FailsSanitised :
    {A E : Type 0} (f : E → AppServiceError) (r : Result A E)
    → ((x : E) → IsSanitised (f x))
    → FailsSanitised (map_err f r)
map_err-FailsSanitised f (ok a) h = λ e p. absurd (ground arith)
map_err-FailsSanitised f (err x) h = err-FailsSanitised (f x) (h x)

then-FailsSanitised :
    {A B : Type 0} (r : Result A AppServiceError) (k : A → Result B AppServiceError)
    → FailsSanitised r
    → ((a : A) → FailsSanitised (k a))
    → FailsSanitised (r >>= k)
then-FailsSanitised (ok a) k h g = g a
then-FailsSanitised (err x) k h g = λ e p. h e (ground arith)

ok-FailsSanitised : {A : Type 0} (a : A) → FailsSanitised (ok a)
ok-FailsSanitised a e p = absurd (ground arith)

with_version-FailsSanitised :
    (r : Result String String) (correlation : Uuid) → FailsSanitised (with_version r correlation)
with_version-FailsSanitised (ok digest) correlation = λ e p. absurd (ground arith)
with_version-FailsSanitised (err m) correlation = err-FailsSanitised _ (λ h. refl)

not_found-FailsSanitised :
    {A : Type 0} (o : Option A) (x : AppServiceError) → IsSanitised x → FailsSanitised (ok_or o x)
not_found-FailsSanitised (some a) x h = λ e p. absurd (ground arith)
not_found-FailsSanitised none x h = err-FailsSanitised x h

carry : (x e : AppServiceError) → x ≡ e → IsSanitised x → IsSanitised e
carry x e same h = subst IsSanitised same h

module _ {J : Type 0} (services : Services J) (auth : AuthContext) where
  open services use {policy, json, sha256_hex}

  enforce-FailsSanitised :
      (correlation : Uuid) (action : Action) (resource : Resource)
      → FailsSanitised (enforce_policy policy correlation auth action resource)
  unfolding enforce_policy
  enforce-FailsSanitised correlation action resource =
      map_err-FailsSanitised (denied correlation)
        (into_result (policy (some (subject_from_auth auth)) action resource))
        (denied-IsSanitised correlation)

  fingerprint-FailsSanitised :
      (correlation : Uuid) (request : CreateIssueRequest)
      → FailsSanitised (create_issue_fingerprint sha256_hex correlation request)
  unfolding create_issue_fingerprint
  fingerprint-FailsSanitised correlation request = with_version-FailsSanitised _ correlation

  module _ (ids : RequestIds) (db : Db J) where
    write-FailsSanitised :
        (c : CreateIssueCommandV1)
        → FailsSanitised (
            map_err
              (map_store_error json.show_uuid ids.correlation c)
              (create_issue_transactional json auth c (event_of c ids) ids.fresh db))
    write-FailsSanitised c =
        map_err-FailsSanitised (map_store_error json.show_uuid ids.correlation c)
          (create_issue_transactional json auth c (event_of c ids) ids.fresh db)
          (map_store_error-IsSanitised json.show_uuid ids.correlation c)

    create_issue-FailsSanitised :
        (request : CreateIssueRequest) → FailsSanitised (create_issue services auth request ids db)
    unfolding create_issue
    create_issue-FailsSanitised request e p =
        elim (Result-cases (
          enforce_policy policy ids.correlation auth issue_create
            (Resource.workspace auth.workspace_id))) [
              | inr (x, q) ↦ carry x e (ground arith) (
                  enforce-FailsSanitised ids.correlation issue_create
                    (Resource.workspace auth.workspace_id) x q)
              | inl (u, q) ↦
                  elim (Result-cases
                    (create_issue_fingerprint sha256_hex ids.correlation request)) [
                      | inr (x, f) ↦
                          carry x e (ground arith)
                            (fingerprint-FailsSanitised ids.correlation request x f)
                      | inl (fingerprint, f) ↦
                          elim (Result-cases (new_key request.idempotency_key)) [
                            | inr (x, k) ↦
                                carry (map_domain_error ids.correlation x) e (ground arith)
                                  (map_domain_error-IsSanitised ids.correlation x)
                            | inl (key, k) ↦
                                let c = command_of auth request ids key.raw fingerprint in
                                elim (Result-cases (validate_issue c)) [
                                  | inr (x, v) ↦
                                      carry (map_domain_error ids.correlation x) e (ground arith)
                                        (map_domain_error-IsSanitised ids.correlation x)
                                  | inl (v_ok, v) ↦
                                      elim (Result-cases (enforce_workspace auth c.workspace_id)) [
                                        | inr (x, w) ↦
                                            carry (map_domain_error ids.correlation x) e
                                              (ground arith)
                                              (map_domain_error-IsSanitised ids.correlation x)
                                        | inl (w_ok, w) ↦ write-FailsSanitised c e (ground arith)
                                      ]
                                ]
                          ]
                    ]
            ]

  get-FailsSanitised :
      (correlation issue_id : Uuid) (db : Db J)
      → FailsSanitised (get_issue_by_id services auth correlation issue_id db)
  unfolding get_issue_by_id
  get-FailsSanitised correlation issue_id db e p =
      elim (Result-cases (
        enforce_policy policy correlation auth issue_read
          (Resource.issue auth.workspace_id issue_id))) [
            | inr (x, q) ↦ carry x e (ground arith) (
                enforce-FailsSanitised correlation issue_read
                  (Resource.issue auth.workspace_id issue_id) x q)
            | inl (u, q) ↦ elim (Result-cases (get_issue auth issue_id db)) [
              | inr (x, g) ↦
                  carry (map_store_error_read correlation x) e (ground arith)
                    (map_store_error_read-IsSanitised correlation x)
              | inl (found, g) ↦ λ h. absurd (ground arith)
            ]
          ]

  -- Whatever goes wrong within the two operations of the service, an error of the infrastructure
  -- shows the caller the constant message and nothing of its cause.
  pub service-FailsSanitised :
      (request : CreateIssueRequest) (ids : RequestIds) (correlation issue_id : Uuid) (db : Db J)
      → FailsSanitised (create_issue services auth request ids db)
        × FailsSanitised (get_issue_by_id services auth correlation issue_id db)
  service-FailsSanitised request ids correlation issue_id db =
      (create_issue-FailsSanitised ids db request, get-FailsSanitised correlation issue_id db)
