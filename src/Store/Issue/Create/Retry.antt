-- ===== src/Store/Issue/Create/Retry.antt =====
-- What the retries of a create get: the idempotency of `create_issue_transactional`.
use dandori.Base.{
  ℕ, ◌+◌, ◌≡◌, ◌∙◌, refl, true, false, some, arith, find, ok, err, ==_refl, eq_refl, str_eq,
}
use text.Mathlib.Text.{starts_with}
use dandori.Domain.Model.{Issue}
use dandori.Domain.Event.{IssueCreatedEventV1}
use dandori.Domain.Command.{CreateIssueCommandV1}
use dandori.Domain.Auth.{AuthContext}
use dandori.Store.Schema.{Db, IdempotencyRow}
use dandori.Store.Error.{idempotency_conflict}
use dandori.Store.Issue.Rows.{matches_request_fingerprint}
use dandori.Store.Issue.Reservation.{
  Serde, CreateIssueWriteResult, breaks_length, seven_days, is_reserved_for, reservation_row,
  reserve_idempotency, branch_on_stored_fingerprint,
}
use dandori.Store.Issue.Create.{Fresh, create_issue_transactional}
use dandori.Store.Issue.Create.Writes.{create-eq-created}

module _ {J : Type 0} (s : Serde J) (auth : AuthContext) (c : CreateIssueCommandV1)
    (event : IssueCreatedEventV1) (fresh : Fresh) where
  -- A request that reaches the record of its key: it names the tenant, and its texts fit.
  pub record IsAdmitted : Type 0 where
    pub own_tenant : c.workspace_id ≡ auth.workspace_id
    pub key_fits : breaks_length 128 c.idempotency_key.raw ≡ false
    pub fingerprint_fits : breaks_length 128 c.request_fingerprint ≡ false

  -- What the answer is when the key has been used: the tables stay, and the answer is decided by
  -- the stored fingerprint and the stored response.
  create-used_key :
      (db : Db J) (r : IdempotencyRow J)
      → IsAdmitted
      → find (is_reserved_for c) db.idempotency ≡ some r
      → (matches_request_fingerprint s.show_uuid r.request_fingerprint c ≡ false
          → create_issue_transactional s auth c event fresh db ≡ err idempotency_conflict)
        × ((issue : Issue)
            → matches_request_fingerprint s.show_uuid r.request_fingerprint c ≡ true
            → s.read_response r.response_payload ≡ ok issue
            → create_issue_transactional s auth c event fresh db
              ≡ ok (db, record { issue = issue; idempotent_replay = true }))
  unfolding create_issue_transactional reserve_idempotency branch_on_stored_fingerprint
  create-used_key db r a used = (
    λ m. ground (arith, a.own_tenant, a.key_fits, a.fingerprint_fits),
    λ issue m v. ground (arith, a.own_tenant, a.key_fits, a.fingerprint_fits),
  )

-- A stored response is read back as the issue that it was made of.
abbrev pub ReadsBack : {J : Type 0} → Serde J → Type 0
ReadsBack {J} s =
    (issue : Issue) (v : J) → s.response_value issue ≡ ok v → s.read_response v ≡ ok issue

-- Commands of one workspace under one key.
abbrev pub SameKey : CreateIssueCommandV1 → CreateIssueCommandV1 → Type 0
SameKey c d = (d.workspace_id ≡ c.workspace_id) × (d.idempotency_key.raw ≡ c.idempotency_key.raw)

reserved_for_same :
    {J : Type 0} (c d : CreateIssueCommandV1) (payload : J) (now expires_at : ℕ)
    → SameKey c d
    → is_reserved_for d (reservation_row c payload now expires_at) ≡ true
unfolding is_reserved_for reservation_row
reserved_for_same c d payload now expires_at same =
    rw (same.0, same.1) (rw (==_refl c.workspace_id, eq_refl c.idempotency_key.raw) refl)

module _ {J : Type 0} (s : Serde J) (auth : AuthContext) (c : CreateIssueCommandV1)
    (event : IssueCreatedEventV1) (fresh : Fresh) (db after : Db J)
    (result : CreateIssueWriteResult)
    (commits : create_issue_transactional s auth c event fresh db ≡ ok (after, result))
    (new : result.idempotent_replay ≡ false) (d : CreateIssueCommandV1) (same : SameKey c d)
    (event_2 : IssueCreatedEventV1) (fresh_2 : Fresh) where
  stored :
      (response : J) × (s.response_value result.issue ≡ ok response)
      × (find (is_reserved_for d) after.idempotency
          ≡ some (reservation_row c response fresh.now (fresh.now + seven_days)))
  unfolding find
  stored =
      let (value, response, can, e, r) =
        (create-eq-created s auth c event fresh db after result).0 (commits, new) in
      (
        response,
        rw r can.has_response,
        rw e (rw (reserved_for_same c d response fresh.now (fresh.now + seven_days) same) refl),
      )

  admitted : breaks_length 128 d.request_fingerprint ≡ false → IsAdmitted s auth d event_2 fresh_2
  admitted fits =
      let (value, response, can, e, r) =
        (create-eq-created s auth c event fresh db after result).0 (commits, new) in
      record {
        own_tenant = same.0 ∙ can.own_tenant;
        key_fits = rw same.1 can.key_fits;
        fingerprint_fits = fits;
      }

  -- After a create has committed without a replay, and in any later tables in which the record of
  -- its key still stands as it left it: if responses read back as they were written and its
  -- fingerprint fits its column, a request with the same workspace and key, whatever else it asks
  -- for and at whatever time, changes nothing. With the same fingerprint it gets the issue that the
  -- create returned, as a replay; with another one it is a conflict, if the stored fingerprint is
  -- of the second version.
  pub create-retried :
      (later : Db J)
      → find (is_reserved_for d) later.idempotency ≡ find (is_reserved_for d) after.idempotency
      → ReadsBack s
      → breaks_length 128 d.request_fingerprint ≡ false
      → (d.request_fingerprint ≡ c.request_fingerprint
          → create_issue_transactional s auth d event_2 fresh_2 later
            ≡ ok (later, record { issue = result.issue; idempotent_replay = true }))
        × (str_eq c.request_fingerprint d.request_fingerprint ≡ false
            → starts_with c.request_fingerprint "v2:" ≡ true
            → create_issue_transactional s auth d event_2 fresh_2 later ≡ err idempotency_conflict)
  unfolding matches_request_fingerprint reservation_row
  create-retried later kept reads fits =
      let (response, value, found) = stored in
      let answers =
        create-used_key s auth d event_2 fresh_2 later _ (admitted fits) (kept ∙ found) in
      (
        (λ e.
            answers.1 result.issue (rw e (rw (eq_refl c.request_fingerprint) refl))
              (reads result.issue response value)),
        (λ e v2. answers.0 (ground arith)),
      )
