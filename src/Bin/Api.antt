-- ===== src/Bin/Api.antt =====
-- bin/dandori-api/src/lib.rs: the two REST handlers. axum has chosen the route, and a header that
-- is not text counts as missing. The tables stand beside the answer.
pub mod Laws
use dandori.Base.{
  ℕ, String, Bool, ◌&&◌, Option, none, some, leb, ltb, if◌then◌else◌, Result, ok, err, map_err,
  ok_or, ◌>>=◌,
}
use dandori.Base.Text.{append, strip_prefix}
use dandori.Domain.Ids.{Uuid}
use dandori.Domain.Auth.{AuthContext}
use dandori.Store.Schema.{Db}
use dandori.App.Contract.{
  CreateIssueRequest, CreateIssueResponse, GetIssueResponse, ErrorEnvelope, Envelope,
}
use dandori.App.Service.{Services, RequestIds}
use dandori.App.Adapters.{handle_rest_create_issue, handle_rest_get_issue}
use dandori.Auth.Algorithms.{AuthError}
use dandori.Auth.Keys.{Libraries}
use dandori.Auth.Token.{AuthenticatedClaims, JwtAuthenticator, authenticate_token}

pub record ApiState (J DecodingKey : Type 0) : Type 0 where
  pub service : Services J
  pub jwt : JwtAuthenticator DecodingKey

abbrev pub unauthorized_message : String
unauthorized_message = "authentication failed"

unfoldable pub map_auth_error : AuthError → ℕ × String
map_auth_error error = (401, unauthorized_message)

-- `.and_then(|value| value.strip_prefix("Bearer "))`
unfoldable pub bearer_token : Option String → Option String
unfolding strip_prefix
bearer_token none = none
bearer_token (some value) = strip_prefix "Bearer " value

abbrev pub context_of : AuthenticatedClaims → AuthContext
context_of claims = record { workspace_id = claims.workspace_id; actor_id = claims.actor_id }

-- `StatusCode::from_u16(…).unwrap_or(INTERNAL_SERVER_ERROR)`
unfoldable pub status_from_u16 : ℕ → ℕ
status_from_u16 code = if leb 100 code && ltb code 1000 then code else 500

-- `correlation` is the fresh id of the answer.
unfoldable pub transport_err : {T : Type 0} → Uuid → ℕ → String → String → ℕ × Envelope T
transport_err correlation status code message =
    (status, err (record { code = code; message = message; correlation_id = some correlation }))

-- The tables as they were, with an answer.
abbrev pub unchanged : {J T : Type 0} → Db J → ℕ × Envelope T → Db J × ℕ × Envelope T
unchanged db (status, envelope) = (db, status, envelope)

module _ {J Jwk DecodingKey : Type 0} (libs : Libraries Jwk DecodingKey)
    (state : ApiState J DecodingKey) where
  unfoldable pub auth_context : Option String → Result AuthContext (ℕ × String)
  unfolding bearer_token authenticate_token map_auth_error
  auth_context authorization = do
    token ← ok_or (bearer_token authorization) (401, unauthorized_message)
    claims ← map_err map_auth_error (authenticate_token libs state.jwt token)
    ok (context_of claims)

  abbrev pub with_status : {T : Type 0} → Db J × ℕ × Envelope T → Db J × ℕ × Envelope T
  with_status (after, status, envelope) = (after, status_from_u16 status, envelope)

  -- A body is read by serde_json.
  unfoldable pub create_for :
      {Body : Type 0}
      → (Body → Result CreateIssueRequest String)
      → AuthContext
      → Body
      → RequestIds
      → Db J
      → Db J × ℕ × Envelope CreateIssueResponse
  unfolding handle_rest_create_issue transport_err status_from_u16
  create_for read_body auth body ids db = elim (read_body body) [
    | err error ↦ unchanged db (
        transport_err ids.correlation 422 "invalid_payload"
          (append "invalid request payload: " error))
    | ok request ↦ with_status (handle_rest_create_issue state.service auth request ids db)
  ]

  unfoldable pub rest_create_issue :
      {Body : Type 0}
      → (Body → Result CreateIssueRequest String)
      → Option String
      → Body
      → RequestIds
      → Db J
      → Db J × ℕ × Envelope CreateIssueResponse
  unfolding auth_context create_for transport_err
  rest_create_issue read_body authorization body ids db = elim (auth_context authorization) [
    | err refusal ↦ unchanged db (transport_err ids.correlation refusal.0 "unauthorized" refusal.1)
    | ok auth ↦ create_for read_body auth body ids db
  ]

  unfoldable pub get_for : AuthContext → String → Uuid → Db J → ℕ × Envelope GetIssueResponse
  unfolding handle_rest_get_issue transport_err status_from_u16
  get_for auth issue_id correlation db = elim (libs.parse_uuid issue_id) [
    | err error ↦
        transport_err correlation 422 "invalid_issue_id"
          (append "issue_id must be a valid UUID: " error)
    | ok id ↦
        let answer = handle_rest_get_issue state.service auth correlation id db in
        (status_from_u16 answer.0, answer.1)
  ]

  unfoldable pub rest_get_issue :
      Option String → String → Uuid → Db J → ℕ × Envelope GetIssueResponse
  unfolding auth_context get_for transport_err
  rest_get_issue authorization issue_id correlation db = elim (auth_context authorization) [
    | err refusal ↦ transport_err correlation refusal.0 "unauthorized" refusal.1
    | ok auth ↦ get_for auth issue_id correlation db
  ]
