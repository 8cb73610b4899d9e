-- ===== src/Store/Issue/Create/Reads.antt =====
-- What `get_issue` reads, and whose.
use dandori.Base.{Bool, ◌≡◌, ◌≢◌, refl, false, ◌&&◌, ◌==◌, Option, none, some, arith, find, ok}
use dandori.Domain.Ids.{Uuid}
use dandori.Domain.Model.{Issue}
use dandori.Domain.Event.{IssueCreatedEventV1}
use dandori.Domain.Command.{CreateIssueCommandV1}
use dandori.Domain.Auth.{AuthContext}
use dandori.Store.Schema.{Db, IssueRow}
use dandori.Store.Issue.Reservation.{Serde, CreateIssueWriteResult}
use dandori.Store.Issue.Insert.{issue_row}
use dandori.Store.Issue.Create.{Fresh, transpose, map_found, get_issue, create_issue_transactional}
use dandori.Store.Issue.Create.Idempotency.{issue_of, map_issue_row_total}
use dandori.Store.Issue.Create.Writes.{create-eq-created}

-- The row that the tenant sees under an id.
abbrev pub visible : Uuid → Uuid → IssueRow → Bool
visible ws id i = i.workspace_id == ws && i.id == id

abbrev pub issues_of : Option IssueRow → Option Issue
issues_of none = none
issues_of (some row) = some (issue_of row)

transpose-map_found : (o : Option IssueRow) → transpose (map_found o) ≡ ok (issues_of o)
unfolding transpose map_found
transpose-map_found none = refl
transpose-map_found (some row) = rw (map_issue_row_total row) refl

-- `get_issue` never fails, and answers with the row that the tenant sees under the id.
get_issue-eq-ok :
    {J : Type 0} (auth : AuthContext) (id : Uuid) (db : Db J)
    → get_issue auth id db ≡ ok (issues_of (find (visible auth.workspace_id id) db.issues))
unfolding get_issue
get_issue-eq-ok auth id db = transpose-map_found (find (visible auth.workspace_id id) db.issues)

module _ {J : Type 0} (s : Serde J) (auth : AuthContext) (c : CreateIssueCommandV1)
    (event : IssueCreatedEventV1) (fresh : Fresh) (db after : Db J)
    (result : CreateIssueWriteResult)
    (commits : create_issue_transactional s auth c event fresh db ≡ ok (after, result))
    (new : result.idempotent_replay ≡ false) where
  -- After a create has committed, its tenant reads the issue that was returned under its id, and
  -- what any other workspace reads, under any id, is what it read before.
  pub get_issue-created :
      (get_issue auth c.issue_id after ≡ ok (some result.issue))
      × ((other : AuthContext) (id : Uuid)
          → other.workspace_id ≢ auth.workspace_id
          → get_issue other id after ≡ get_issue other id db)
  unfolding find issue_row
  get_issue-created =
      let (value, response, can, e, r) =
        (create-eq-created s auth c event fresh db after result).0 (commits, new) in
      (
        rw (get_issue-eq-ok auth c.issue_id after, e, r) (ground (arith, can.own_tenant)),
        λ other id apart.
            rw (get_issue-eq-ok other id after, get_issue-eq-ok other id db, e)
              (ground (arith, can.own_tenant, apart)),
      )
