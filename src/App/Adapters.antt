-- ===== src/App/Adapters.antt =====
-- crates/dandori-app-services/src/adapters.rs: the REST and MCP transports. The tables stand
-- beside the answer.
pub mod Laws
use dandori.Base.{ℕ, String, Option, Result, ok, err, map_err, ok_or, ◌>>=◌}
use dandori.Domain.Ids.{Uuid}
use dandori.Domain.Auth.{AuthContext}
use dandori.Store.Schema.{Db}
use dandori.App.Error.{AppServiceError, ErrorKind, validation_error}
use dandori.App.Contract.{
  CreateIssueRequest, CreateIssueResponse, GetIssueResponse, Envelope, map_error_to_transport,
}
use dandori.App.Service.{Services, RequestIds, create_issue, get_issue_by_id}
use dandori.Base.Text.{append}

unfoldable pub status_of : ErrorKind → ℕ
status_of ErrorKind.validation = 422
status_of ErrorKind.precondition = 422
status_of ErrorKind.conflict = 409
status_of ErrorKind.not_found = 404
status_of ErrorKind.authz = 403
status_of ErrorKind.tenant_boundary = 403
status_of ErrorKind.infrastructure = 500

unfoldable pub map_transport_error : {T : Type 0} → AppServiceError → ℕ × Envelope T
unfolding status_of
map_transport_error error = (status_of error.kind, err (map_error_to_transport error))

abbrev pub respond_created :
    {J T : Type 0} → Db J → Result (Db J × T) AppServiceError → Db J × ℕ × Envelope T
respond_created db (ok (after, response)) = (after, 201, ok response)
respond_created db (err error) = let answer = map_transport_error error in (db, answer.0, answer.1)

abbrev pub respond_found : {T : Type 0} → Result T AppServiceError → ℕ × Envelope T
respond_found (ok response) = (200, ok response)
respond_found (err error) = map_transport_error error

-- What MCP asks of serde_json: reading a request, the text under "issue_id", and the values of the
-- two responses; and uuid's reading of a text.
pub record McpJson (J : Type 0) : Type 0 where
  pub read_request : J → Result CreateIssueRequest String
  pub issue_id_text : J → Option String
  pub parse_uuid : String → Result Uuid String
  pub created_value : CreateIssueResponse → J
  pub found_value : GetIssueResponse → J

abbrev pub map_data : {T U : Type 0} → (T → U) → Envelope T → Envelope U
map_data f (ok response) = ok (f response)
map_data f (err error) = err error

abbrev pub refuse : {T : Type 0} → Uuid → String → String → Envelope T
refuse correlation code message =
    err (map_error_to_transport (validation_error code message correlation))

module _ {J : Type 0} (services : Services J) (auth : AuthContext) where
  unfoldable pub handle_rest_create_issue :
      CreateIssueRequest → RequestIds → Db J → Db J × ℕ × Envelope CreateIssueResponse
  unfolding create_issue map_transport_error
  handle_rest_create_issue request ids db =
      respond_created db (create_issue services auth request ids db)

  unfoldable pub handle_rest_get_issue : Uuid → Uuid → Db J → ℕ × Envelope GetIssueResponse
  unfolding get_issue_by_id map_transport_error
  handle_rest_get_issue correlation issue_id db =
      respond_found (get_issue_by_id services auth correlation issue_id db)

  unfoldable pub handle_mcp_create_issue : McpJson J → J → RequestIds → Db J → Db J × Envelope J
  unfolding handle_rest_create_issue
  handle_mcp_create_issue mcp params ids db = elim (mcp.read_request params) [
    | err error ↦ (
      db,
      refuse ids.correlation "invalid_payload" (append "invalid MCP create_issue payload: " error),
    )
    | ok request ↦
        let answer = handle_rest_create_issue request ids db in
        (answer.0, map_data mcp.created_value answer.2)
  ]

  -- The id that the payload asks for.
  unfoldable pub asked_issue_id : McpJson J → J → Uuid → Result Uuid AppServiceError
  asked_issue_id mcp params correlation = do
    value ← ok_or (mcp.issue_id_text params) (
        validation_error "invalid_payload" "issue_id is required in MCP get_issue payload"
          correlation)
    map_err
        (λ error.
          validation_error "invalid_issue_id" (append "issue_id must be a valid UUID: " error)
            correlation)
        (mcp.parse_uuid value)

  unfoldable pub handle_mcp_get_issue : McpJson J → J → Uuid → Db J → Envelope J
  unfolding asked_issue_id handle_rest_get_issue
  handle_mcp_get_issue mcp params correlation db = elim (asked_issue_id mcp params correlation) [
    | err error ↦ err (map_error_to_transport error)
    | ok issue_id ↦ map_data mcp.found_value (handle_rest_get_issue correlation issue_id db).1
  ]
