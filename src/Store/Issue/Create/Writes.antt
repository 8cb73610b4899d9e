-- ===== src/Store/Issue/Create/Writes.antt =====
-- What a create that is no replay commits.
use dandori.Base.{
  ◌+◌, ◌≡◌, ◌↔◌, refl, Bool, true, false, ◌&&◌, ◌||◌, ◌==◌, any, none, List, [], ◌∷◌, arith, find,
  ok, Option-cases, Result-cases, inl, inr, ==_refl, eq_refl,
}
use dandori.Domain.Ids.{Instant}
use dandori.Domain.Model.{Issue}
use dandori.Domain.Event.{IssueCreatedEventV1}
use dandori.Domain.Command.{CreateIssueCommandV1}
use dandori.Domain.Auth.{AuthContext}
use dandori.Store.Schema.{Db, IdempotencyRow}
use dandori.Store.Table.{update_where}
use dandori.Store.Issue.Reservation.{
  Serde, CreateIssueWriteResult, breaks_length, workspace_exists, seven_days, is_reserved_for,
  reservation_row, reserve_idempotency, branch_on_stored_fingerprint, update_idempotency_payload,
}
use dandori.Store.Issue.Insert.{
  issue_row, activity_row, outbox_row, insert_issue_returning, insert_activity, insert_outbox,
  project_exists, ensure_project_exists, ensure_milestone_belongs_to_project, breaks_issue_checks,
  issue_references,
}
use dandori.Store.Issue.Create.{Fresh, write_issue, create_issue_transactional}
use dandori.Store.Issue.Create.Idempotency.{issue_of, map_issue_row_total}

module _ {ℓ} {A : Type ℓ} where
  -- An update of rows that a search did not find changes nothing.
  update_not_found :
      (p q : A → Bool) (f : A → A) (xs : List A)
      → find p xs ≡ none
      → update_where (λ x. q x && p x) f xs ≡ xs
  unfolding find update_where
  update_not_found p q f [] h = refl
  update_not_found p q f (x ∷ xs) h = ground (arith, update_not_found p q f xs)

module _ {J : Type 0} (s : Serde J) (auth : AuthContext) (c : CreateIssueCommandV1)
    (event : IssueCreatedEventV1) (fresh : Fresh) where
  -- The issue that the command describes.
  abbrev pub new_issue : Issue
  new_issue = issue_of (issue_row c event.occurred_at)

  -- What the tables and serde_json must answer for the command to be carried out: `value` and
  -- `response` are the JSON values of the event and of the issue.
  pub record IsCreatable (db : Db J) (value response : J) : Type 0 where
    pub own_tenant : c.workspace_id ≡ auth.workspace_id
    pub key_fits : breaks_length 128 c.idempotency_key.raw ≡ false
    pub fingerprint_fits : breaks_length 128 c.request_fingerprint ≡ false
    pub key_unused : find (is_reserved_for c) db.idempotency ≡ none
    pub has_workspace : workspace_exists c.workspace_id db.workspaces ≡ true
    pub has_project : project_exists auth.workspace_id c db ≡ true
    pub has_milestone : ensure_milestone_belongs_to_project auth.workspace_id c db ≡ ok tt
    pub issue_fits : breaks_issue_checks c.title c.description ≡ false
    pub issue_id_unused : any (λ i. i.id == c.issue_id) db.issues ≡ false
    pub references : issue_references c db ≡ true
    pub has_value : s.event_value event ≡ ok value
    pub activity_id_unused : any (λ a. a.id == fresh.activity_id) db.activities ≡ false
    pub outbox_ids_unused :
        any (λ o. o.id == fresh.outbox_id || o.event_id == event.event_id) db.outbox ≡ false
    pub has_response : s.response_value new_issue ≡ ok response

  -- The tables with the new rows.
  abbrev pub with_issue : Db J → J → J → Db J
  with_issue db value response = record db {
    issues = issue_row c event.occurred_at ∷ db.issues;
    activities = activity_row c fresh.activity_id value event.occurred_at ∷ db.activities;
    outbox = outbox_row c event fresh.outbox_id value event.occurred_at ∷ db.outbox;
    idempotency = reservation_row c response fresh.now (fresh.now + seven_days) ∷ db.idempotency;
  }

  reserved_for :
      (payload : J) (now expires_at : Instant)
      → is_reserved_for c (reservation_row c payload now expires_at) ≡ true
  unfolding is_reserved_for reservation_row
  reserved_for payload now expires_at =
      rw (==_refl c.workspace_id, eq_refl c.idempotency_key.raw) refl

  -- The update of the payload replaces the placeholder of the new reservation.
  filled :
      (before after : J) (now expires_at : Instant) (rows : List (IdempotencyRow J))
      → c.workspace_id ≡ auth.workspace_id
      → find (is_reserved_for c) rows ≡ none
      → update_where
          (λ r. r.workspace_id == auth.workspace_id && is_reserved_for c r)
          (λ r. record r { response_payload = after })
          (reservation_row c before now expires_at ∷ rows)
        ≡ reservation_row c after now expires_at ∷ rows
  unfolding update_where reservation_row
  filled before after now expires_at rows own none_found = ground (
    arith,
    reserved_for before now expires_at,
    update_not_found (is_reserved_for c) (λ r. r.workspace_id == auth.workspace_id)
        (λ r. record r { response_payload = after }) rows none_found,
  )

  created :
      (db : Db J) (value response : J)
      → IsCreatable db value response
      → create_issue_transactional s auth c event fresh db
        ≡ ok (with_issue db value response, record { issue = new_issue; idempotent_replay = false })
  unfolding create_issue_transactional reserve_idempotency write_issue insert_issue_returning
      insert_activity insert_outbox update_idempotency_payload ensure_project_exists
  created db value response h = ground (
    arith,
    h.own_tenant,
    h.key_fits,
    h.fingerprint_fits,
    h.key_unused,
    h.has_workspace,
    h.has_project,
    h.has_milestone,
    h.issue_fits,
    h.issue_id_unused,
    h.references,
    h.has_value,
    h.activity_id_unused,
    h.outbox_ids_unused,
    h.has_response,
    map_issue_row_total (issue_row c event.occurred_at),
    filled s.reserving response fresh.now (fresh.now + seven_days) db.idempotency h.own_tenant
        h.key_unused,
  )

  -- A create that is no replay has met all conditions.
  creatable :
      (db after : Db J) (result : CreateIssueWriteResult)
      → create_issue_transactional s auth c event fresh db ≡ ok (after, result)
      → result.idempotent_replay ≡ false
      → (value : J) × (response : J) × IsCreatable db value response
  unfolding create_issue_transactional reserve_idempotency write_issue insert_issue_returning
      insert_activity insert_outbox ensure_project_exists branch_on_stored_fingerprint
  creatable db after result h new = elim (Option-cases (find (is_reserved_for c) db.idempotency)) [
    | inr (r, e) ↦ absurd (ground arith)
    | inl unused ↦ elim (Result-cases (s.event_value event)) [
      | inr (message, e) ↦ absurd (ground arith)
      | inl (value, has_value) ↦ elim (Result-cases (s.response_value new_issue)) [
        | inr (message, e) ↦
            absurd (ground (arith, map_issue_row_total (issue_row c event.occurred_at)))
        | inl (response, has_response) ↦ (value, response, ground arith)
      ]
    ]
  ]

  -- What the commit of a create that is no replay shows.
  abbrev pub Creates : Db J → Db J → CreateIssueWriteResult → Type 0
  Creates db after result =
      (value : J) × (response : J) × IsCreatable db value response
      × (after ≡ with_issue db value response)
      × (result ≡ record { issue = new_issue; idempotent_replay = false })

  -- `create_issue_transactional` commits without a replay exactly if the conditions are met; it then
  -- adds one issue, one activity, one pending outbox row and one idempotency record that holds the
  -- response, changes no other row, and returns the new issue.
  pub create-eq-created :
      (db after : Db J) (result : CreateIssueWriteResult)
      → ((create_issue_transactional s auth c event fresh db ≡ ok (after, result))
          × (result.idempotent_replay ≡ false))
        ↔ Creates db after result
  create-eq-created db after result = (forward, backward)
    where
      forward :
          (create_issue_transactional s auth c event fresh db ≡ ok (after, result))
            × (result.idempotent_replay ≡ false)
          → Creates db after result
      forward h =
          let (value, response, can) = creatable db after result h.0 h.1 in
          (
            value,
            response,
            can,
            ground (arith, created db value response can),
            ground (arith, created db value response can),
          )

      backward :
          Creates db after result
          → (create_issue_transactional s auth c event fresh db ≡ ok (after, result))
            × (result.idempotent_replay ≡ false)
      backward (value, response, can, e, r) = (rw (e, r) (created db value response can), rw r refl)
