-- ===== src/Bin/Mcp.antt =====
-- bin/dandori-mcp/src/lib.rs and the loop of bin/dandori-mcp/src/main.rs: JSON-RPC over lines of
-- text. A JSON value is serde_json's; the tables stand beside the answer.
pub mod Laws
use dandori.Base.{
  ℕ, String, Bool, true, false, not, Option, none, some, List, [], ◌∷◌, str_eq, if◌then◌else◌,
  Result, ok, err,
}
use dandori.Base.Int.{ℤ, negsuc}
use dandori.Base.Text.{append, trim, is_empty}
use dandori.Domain.Ids.{Uuid}
use dandori.Store.Schema.{Db}
use dandori.App.Contract.{ErrorEnvelope, Envelope}
use dandori.App.Service.{Services, RequestIds}
use dandori.App.Adapters.{McpJson, handle_mcp_create_issue, handle_mcp_get_issue}
use dandori.Auth.Keys.{Libraries}
use dandori.Auth.Token.{JwtAuthenticator, authenticate_token}
use dandori.Bin.Api.{context_of}

pub record McpState (J DecodingKey : Type 0) : Type 0 where
  pub service : Services J
  pub jwt : JwtAuthenticator DecodingKey

pub record JsonRpcRequest (J : Type 0) : Type 0 where
  pub jsonrpc : String
  pub id : J
  pub method : String
  pub params : J

pub record JsonRpcError : Type 0 where
  pub code : ℤ
  pub message : String

pub record JsonRpcResponse (J : Type 0) : Type 0 where
  pub jsonrpc : String
  pub id : J
  pub result : Option J
  pub error : Option JsonRpcError

pub record ToolCallParams (J : Type 0) : Type 0 where
  pub name : String
  pub token : String
  pub arguments : J

-- What is asked of serde_json: the values that `json!` builds, and the readings of a line, of a
-- call's parameters and of a tool's arguments.
pub record RpcJson (J : Type 0) : Type 0 where
  pub null : J
  pub text : String → J
  pub array : List J → J
  pub object : List (String × J) → J
  pub envelope_value : Envelope J → J
  pub read_request : String → Result (JsonRpcRequest J) String
  pub read_tool_call : J → Result (ToolCallParams J) String
  pub tools : McpJson J

module _ {J : Type 0} where
  unfoldable pub ok_response : J → J → JsonRpcResponse J
  ok_response id result = record { jsonrpc = "2.0"; id = id; result = some result; error = none }

  unfoldable pub error_response : J → ℤ → String → JsonRpcResponse J
  error_response id code message = record {
    jsonrpc = "2.0";
    id = id;
    result = none;
    error = some (record { code = code; message = message });
  }

  -- -32600
  unfoldable pub invalid_request : J → String → JsonRpcResponse J
  unfolding error_response
  invalid_request id message = error_response id (negsuc 32599) message

  -- -32601
  unfoldable pub method_not_found : J → String → JsonRpcResponse J
  unfolding error_response
  method_not_found id method = error_response id (negsuc 32600) (append "method not found: " method)

  -- -32602
  unfoldable pub invalid_params : J → String → JsonRpcResponse J
  unfolding error_response
  invalid_params id message = error_response id (negsuc 32601) message

module _ {J : Type 0} (json : RpcJson J) where
  abbrev texts : List String → List J
  texts [] = []
  texts (s ∷ ss) = json.text s ∷ texts ss

  abbrev typed : String → J
  typed name = json.object (("type", json.text name) ∷ [])

  abbrev uuid_schema : J
  uuid_schema = json.object (("type", json.text "string") ∷ ("format", json.text "uuid") ∷ [])

  abbrev optional : List (String × J) → J
  optional rest = json.object (("type", json.array (texts ("string" ∷ "null" ∷ []))) ∷ rest)

  abbrev tool : String → String → List String → List (String × J) → J
  tool name description required properties = json.object (
      ("name", json.text name)
      ∷ ("description", json.text description)
      ∷ (
        "inputSchema",
        json.object (
            ("type", json.text "object")
            ∷ ("required", json.array (texts required))
            ∷ ("properties", json.object properties)
            ∷ []),
      )
      ∷ [])

  unfoldable pub tools_list_payload : J
  tools_list_payload = json.object (
      (
        "tools",
        json.array (
            tool "issue.create" "Create an issue in the authenticated workspace"
              ("idempotency_key" ∷ "project_id" ∷ "title" ∷ "priority" ∷ [])
              (("idempotency_key", typed "string")
                ∷ ("project_id", uuid_schema)
                ∷ ("milestone_id", optional (("format", json.text "uuid") ∷ []))
                ∷ ("title", typed "string")
                ∷ ("description", optional [])
                ∷ (
                  "priority",
                  json.object (
                      ("type", json.text "string")
                      ∷ ("enum", json.array (texts ("low" ∷ "medium" ∷ "high" ∷ "urgent" ∷ [])))
                      ∷ []),
                )
                ∷ [])
            ∷ tool "issue.get" "Get an issue from the authenticated workspace" ("issue_id" ∷ [])
                (("issue_id", uuid_schema) ∷ [])
            ∷ []),
      )
      ∷ [])

  unfoldable pub initialize_payload : J
  initialize_payload = json.object (
      ("protocolVersion", json.text "2026-04-15")
      ∷ (
        "serverInfo",
        json.object (("name", json.text "dandori-mcp") ∷ ("version", json.text "0.1.0") ∷ []),
      )
      ∷ ("capabilities", json.object (("tools", json.object []) ∷ []))
      ∷ [])

abbrev pub refusal : {T : Type 0} → String → String → Uuid → Envelope T
refusal code message correlation =
    err (record { code = code; message = message; correlation_id = some correlation })

module _ {J Jwk DecodingKey : Type 0} (libs : Libraries Jwk DecodingKey) (json : RpcJson J)
    (state : McpState J DecodingKey) where
  unfoldable pub handle_tool_call : String → String → J → RequestIds → Db J → Db J × Envelope J
  unfolding authenticate_token handle_mcp_create_issue handle_mcp_get_issue
  handle_tool_call tool_name token params ids db = elim (authenticate_token libs state.jwt token) [
    | err error ↦ (db, refusal "unauthorized" "authentication failed" ids.correlation)
    | ok claims ↦
        if str_eq tool_name "issue.create"
        then handle_mcp_create_issue state.service (context_of claims) json.tools params ids db
        else if str_eq tool_name "issue.get"
        then (
          db,
          handle_mcp_get_issue state.service (context_of claims) json.tools params ids.correlation
              db,
        )
        else (
          db,
          refusal "unknown_tool" (append "unknown MCP tool '" (append tool_name "'"))
              ids.correlation,
        )
  ]

  abbrev pub answer_call : J → Db J × Envelope J → Db J × JsonRpcResponse J
  answer_call id (after, envelope) =
      (after, ok_response id (json.object (("envelope", json.envelope_value envelope) ∷ [])))

  unfoldable pub call_tool : JsonRpcRequest J → RequestIds → Db J → Db J × JsonRpcResponse J
  unfolding handle_tool_call ok_response invalid_params
  call_tool request ids db = elim (json.read_tool_call request.params) [
    | err error ↦ (db, invalid_params request.id (append "invalid tools/call params: " error))
    | ok call ↦ answer_call request.id (handle_tool_call call.name call.token call.arguments ids db)
  ]

  unfoldable pub handle_json_rpc : JsonRpcRequest J → RequestIds → Db J → Db J × JsonRpcResponse J
  unfolding call_tool ok_response invalid_request method_not_found tools_list_payload
      initialize_payload
  handle_json_rpc request ids db =
      if not (str_eq request.jsonrpc "2.0")
      then (db, invalid_request request.id "jsonrpc must be exactly '2.0'")
      else if str_eq request.method "initialize"
      then (db, ok_response request.id (initialize_payload json))
      else if str_eq request.method "tools/list"
      then (db, ok_response request.id (tools_list_payload json))
      else if str_eq request.method "tools/call"
      then call_tool request ids db
      else (db, method_not_found request.id request.method)

  unfoldable pub answer_line : String → RequestIds → Db J → Db J × JsonRpcResponse J
  unfolding handle_json_rpc invalid_request
  answer_line line ids db = elim (json.read_request line) [
    | ok request ↦ handle_json_rpc request ids db
    | err error ↦ (db, invalid_request json.null (append "invalid JSON-RPC request: " error))
  ]

  -- The loop of `main` over the lines, each with the fresh ids that it meets: the responses that
  -- are written, in order.
  unfoldable pub serve_lines : List (String × RequestIds) → Db J → Db J × List (JsonRpcResponse J)
  unfolding answer_line trim is_empty
  serve_lines [] db = (db, [])
  serve_lines ((line, ids) ∷ lines) db =
      let skipped = serve_lines lines db in
      let answered = answer_line line ids db in
      let rest = serve_lines lines answered.0 in
      if is_empty (trim line) then skipped else (rest.0, answered.1 ∷ rest.1)
