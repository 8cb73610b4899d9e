-- ===== src/Tests/Serving.antt =====
-- The two transports under a token that is accepted, and without one.
use dandori.Base.{
  ℕ, ◌≡◌, ◌⊎◌, refl, false, String, some, Result, ok, err, is_ok, str_eq, if◌then◌else◌,
}
use dandori.Base.Text.{byte_length, char_length, all_chars, is_empty, trim}
use dandori.Policy.Matrix.{evaluate, standard}
use dandori.App.Contract.{CreateIssueRequest}
use dandori.Auth.Token.{AuthenticatedClaims}
use dandori.Bin.Api.{ApiState, rest_create_issue}
use dandori.Bin.Api.Laws.{Bears, Created, rest_create_issue-authenticated}
use dandori.Bin.Mcp.{McpState, JsonRpcRequest, ToolCallParams, RpcJson, handle_json_rpc}
use dandori.Bin.Mcp.Laws.{Answers, handle_json_rpc-Answers}
use dandori.Tests.Data.{Json, reserving_json, tables}
use dandori.Tests.App.{services, request, ids, mcp, created}
use dandori.Tests.Issues.{after}
use dandori.Tests.Auth.{libraries, authenticator}

abbrev api : ApiState Json ℕ
api = record { service = services; jwt = authenticator }

abbrev read_body : String → Result CreateIssueRequest String
read_body body = ok request

creates :
    rest_create_issue libraries api read_body (some "Bearer token") "{}" ids tables
    ≡ (after, 201, ok created)
unfolding rest_create_issue evaluate standard byte_length all_chars is_empty trim char_length
creates = refl

turned_away : rest_create_issue libraries api read_body (some "Basic token") "{}" ids tables ≡ (
  tables,
  401,
  err (record {
    code = "unauthorized";
    message = "authentication failed";
    correlation_id = some 90;
  }),
)
unfolding rest_create_issue
turned_away = refl

rest_create_issue-authenticated_example :
    let (settled, status, envelope) =
      rest_create_issue libraries api read_body (some "Bearer token") "{}" ids tables in
    ((settled ≡ tables)
      × (is_ok envelope ≡ false)
      × ((status ≡ 401)
          ⊎ ((claims : AuthenticatedClaims) × Bears libraries api (some "Bearer token") claims)))
    ⊎ Created libraries api read_body (some "Bearer token") "{}" ids tables settled status envelope
rest_create_issue-authenticated_example =
    rest_create_issue-authenticated libraries api read_body (some "Bearer token") "{}" ids tables

abbrev server : McpState Json ℕ
server = record { service = services; jwt = authenticator }

abbrev call : ToolCallParams Json
call = record { name = "issue.create"; token = "token"; arguments = reserving_json }

abbrev rpc : JsonRpcRequest Json
rpc = record {
  jsonrpc = "2.0";
  id = reserving_json;
  method = "tools/call";
  params = reserving_json;
}

abbrev json : RpcJson Json
json = record {
  null = reserving_json;
  text = λ s. reserving_json;
  array = λ values. reserving_json;
  object = λ fields. reserving_json;
  envelope_value = λ envelope. reserving_json;
  read_request = λ line. if str_eq line "call" then ok rpc else err "not JSON";
  read_tool_call = λ params. ok call;
  tools = mcp;
}

serves : (handle_json_rpc libraries json server rpc ids tables).0 ≡ after
unfolding handle_json_rpc evaluate standard byte_length all_chars is_empty trim char_length
serves = refl

handle_json_rpc-Answers_example :
    Answers libraries json server rpc ids tables
      (handle_json_rpc libraries json server rpc ids tables)
handle_json_rpc-Answers_example = handle_json_rpc-Answers libraries json server rpc ids tables
