-- ===== src/App/Service/Retry.antt =====
-- A client that sends a request again.
use dandori.Base.{◌≡◌, refl, true, false, String, ok, Result-cases, inl, inr, arith, ==_refl}
use dandori.Domain.Ids.{Uuid, IdempotencyKey, new_key}
use dandori.Domain.Command.{validate_issue}
use dandori.Domain.Auth.{AuthContext, enforce_workspace}
use dandori.Store.Schema.{Db}
use dandori.Store.Issue.Reservation.{CreateIssueWriteResult}
use dandori.Store.Issue.Create.{create_issue_transactional}
use dandori.Store.Issue.Create.Checks.{validate_issue-passes_checks}
use dandori.Store.Issue.Create.Retry.{ReadsBack, create-retried}
use dandori.Policy.{issue_create, Resource}
use dandori.App.Contract.{CreateIssueRequest, CreateIssueResponse, map_issue_to_dto}
use dandori.App.Service.{
  Services, RequestIds, enforce_policy, create_issue_fingerprint, command_of, event_of,
  create_issue,
}

module _ {J : Type 0} (services : Services J) (auth : AuthContext)
    (request : CreateIssueRequest) where
  open services use {policy, json, sha256_hex}

  -- What a request that succeeds has passed.
  pub record Passes (ids : RequestIds) (db after : Db J) (response : CreateIssueResponse)
      : Type 0 where
    pub allowed :
        enforce_policy policy ids.correlation auth issue_create
          (Resource.workspace auth.workspace_id)
        ≡ ok tt
    pub fingerprint : String
    pub fingerprinted : create_issue_fingerprint sha256_hex ids.correlation request ≡ ok fingerprint
    pub key : IdempotencyKey
    pub keyed : new_key request.idempotency_key ≡ ok key
    pub valid : validate_issue (command_of auth request ids key.raw fingerprint) ≡ ok tt
    pub written : CreateIssueWriteResult
    pub writes :
        create_issue_transactional json auth
          (command_of auth request ids key.raw fingerprint)
          (event_of (command_of auth request ids key.raw fingerprint) ids)
          ids.fresh
          db
        ≡ ok (after, written)
    pub response_is : response ≡ record {
      issue = map_issue_to_dto written.issue;
      idempotent_replay = written.idempotent_replay;
    }

  passes :
      (ids : RequestIds) (db after : Db J) (response : CreateIssueResponse)
      → create_issue services auth request ids db ≡ ok (after, response)
      → Passes ids db after response
  unfolding create_issue
  passes ids db after response h =
      elim (Result-cases (create_issue_fingerprint sha256_hex ids.correlation request)) [
        | inr (x, e) ↦ absurd (ground arith)
        | inl (fingerprint, f) ↦ elim (Result-cases (new_key request.idempotency_key)) [
          | inr (x, e) ↦ absurd (ground arith)
          | inl (key, k) ↦
              elim (Result-cases (
                create_issue_transactional json auth
                  (command_of auth request ids key.raw fingerprint)
                  (event_of (command_of auth request ids key.raw fingerprint) ids) ids.fresh db)) [
                    | inr (x, e) ↦ absurd (ground arith)
                    | inl ((settled, written), w) ↦ record {
                      allowed = ground arith;
                      fingerprint = fingerprint;
                      fingerprinted = f;
                      key = key;
                      keyed = k;
                      valid = ground arith;
                      written = written;
                      writes = ground arith;
                      response_is = ground arith;
                    }
                  ]
        ]
      ]

  -- The fingerprint of a request does not depend on its ids.
  same_fingerprint :
      (a b : Uuid) (fingerprint : String)
      → create_issue_fingerprint sha256_hex a request ≡ ok fingerprint
      → create_issue_fingerprint sha256_hex b request ≡ ok fingerprint
  unfolding create_issue_fingerprint
  same_fingerprint a b fingerprint h = ground arith

  same_allowed :
      (a b : Uuid)
      → enforce_policy policy a auth issue_create (Resource.workspace auth.workspace_id) ≡ ok tt
      → enforce_policy policy b auth issue_create (Resource.workspace auth.workspace_id) ≡ ok tt
  unfolding enforce_policy
  same_allowed a b h = ground arith

  -- A client that sends a request again after it has succeeded gets the same issue, marked as a
  -- replay, and changes nothing, whatever fresh ids and times the second request meets.
  pub create_issue-sent_again :
      (ids ids_2 : RequestIds) (db after : Db J) (response : CreateIssueResponse)
      → ReadsBack json
      → create_issue services auth request ids db ≡ ok (after, response)
      → response.idempotent_replay ≡ false
      → create_issue services auth request ids_2 after
        ≡ ok (after, record { issue = response.issue; idempotent_replay = true })
  unfolding create_issue command_of validate_issue enforce_workspace
  create_issue-sent_again ids ids_2 db after response reads h new =
      let p = passes ids db after response h in
      let c = command_of auth request ids p.key.raw p.fingerprint in
      let d = command_of auth request ids_2 p.key.raw p.fingerprint in
      let again =
        (create-retried json auth c (event_of c ids) ids.fresh db after p.written p.writes
            (ground (arith, p.response_is)) d (refl, refl) (event_of d ids_2) ids_2.fresh after refl
            reads (validate_issue-passes_checks c p.valid).2).0
          refl in
      ground (
        arith,
        p.response_is,
        same_allowed ids.correlation ids_2.correlation p.allowed,
        same_fingerprint ids.correlation ids_2.correlation p.fingerprint p.fingerprinted,
        p.keyed,
        p.valid,
        ==_refl auth.workspace_id,
      )
