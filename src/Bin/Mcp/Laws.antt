-- ===== src/Bin/Mcp/Laws.antt =====
-- bin/dandori-mcp: what is answered to each line, and what it may change.
use dandori.Base.{
  suc, String, Bool, true, false, not, Option, none, some, List, [], ◌∷◌, length, count_if, All,
  arith, ap, ◌≡◌, ◌⊎◌, inl, inr, refl, ok, str_eq, eq_iff, Result-cases, Bool-cases, if◌then◌else◌,
}
use dandori.Base.Text.{trim, is_empty}
use dandori.Store.Schema.{Db}
use dandori.App.Service.{RequestIds}
use dandori.App.Adapters.{handle_mcp_create_issue}
use dandori.Auth.Keys.{Libraries}
use dandori.Auth.Token.{AuthenticatedClaims, authenticate_token}
use dandori.Auth.Token.Laws.{Accepts, authenticate_token-eq-ok}
use dandori.Bin.Api.{context_of}
use dandori.Bin.Mcp.{
  McpState, JsonRpcRequest, JsonRpcResponse, ToolCallParams, RpcJson, ok_response, error_response,
  invalid_request, method_not_found, invalid_params, handle_tool_call, call_tool, handle_json_rpc,
  answer_line, serve_lines, initialize_payload, tools_list_payload,
}

abbrev has_one : {A B : Type 0} → Option A → Option B → Bool
has_one none none = false
has_one (some a) none = true
has_one none (some b) = true
has_one (some a) (some b) = false

-- JSON-RPC 2.0 with a result or an error, not both.
pub record IsResponse {J : Type 0} (r : JsonRpcResponse J) : Type 0 where
  pub version : r.jsonrpc ≡ "2.0"
  pub one : has_one r.result r.error ≡ true

module _ {J Jwk DecodingKey : Type 0} (libs : Libraries Jwk DecodingKey) (json : RpcJson J)
    (state : McpState J DecodingKey) where
  -- A tools/call of issue.create under an accepted token, which the service has carried out.
  pub record Calls (request : JsonRpcRequest J) (ids : RequestIds) (db after : Db J) : Type 0 where
    pub method : request.method ≡ "tools/call"
    pub call : ToolCallParams J
    pub claims : AuthenticatedClaims
    pub read : json.read_tool_call request.params ≡ ok call
    pub accepted : Accepts libs state.jwt call.token claims
    pub tool : call.name ≡ "issue.create"
    pub served :
        (handle_mcp_create_issue state.service
          (context_of claims)
          json.tools
          call.arguments
          ids
          db).0
        ≡ after

  -- What a request is answered with, and what it has changed.
  pub record Answers (request : JsonRpcRequest J) (ids : RequestIds) (db : Db J)
      (p : Db J × JsonRpcResponse J) : Type 0 where
    pub one : IsResponse p.1
    pub same_id : p.1.id ≡ request.id
    pub change : (p.0 ≡ db) ⊎ Calls request ids db p.0

  call_tool-Calls :
      (request : JsonRpcRequest J) (ids : RequestIds) (db : Db J)
      → request.method ≡ "tools/call"
      → Answers request ids db (call_tool libs json state request ids db)
  unfolding call_tool handle_tool_call ok_response invalid_params error_response
  call_tool-Calls request ids db named = elim (Result-cases (json.read_tool_call request.params)) [
    | inr (error, bad) ↦ record {
      one = ground arith;
      same_id = ground arith;
      change = inl (ground arith);
    }
    | inl (call, read) ↦ elim (Result-cases (authenticate_token libs state.jwt call.token)) [
      | inr (error, bad) ↦ record {
        one = ground arith;
        same_id = ground arith;
        change = inl (ground arith);
      }
      | inl (claims, good) ↦ elim (Bool-cases (str_eq call.name "issue.create")) [
        | inr other ↦ record {
          one = ground arith;
          same_id = ground arith;
          change = inl (ground arith);
        }
        | inl create ↦ record {
          one = ground arith;
          same_id = ground arith;
          change = inr (record {
            method = named;
            call = call;
            claims = claims;
            read = read;
            accepted = (authenticate_token-eq-ok libs state.jwt call.token claims).0 good;
            tool = (eq_iff call.name "issue.create").0 create;
            served = ground arith;
          });
        }
      ]
    ]
  ]

  unchanged :
      {request : JsonRpcRequest J} {ids : RequestIds} {db : Db J} (response : JsonRpcResponse J)
      → response.jsonrpc ≡ "2.0"
      → has_one response.result response.error ≡ true
      → response.id ≡ request.id
      → Answers request ids db (db, response)
  unchanged response v o i = record {
    one = record { version = v; one = o };
    same_id = i;
    change = inl refl;
  }

  Answers-if :
      {request : JsonRpcRequest J} {ids : RequestIds} {db : Db J} (test : Bool)
      {p q : Db J × JsonRpcResponse J}
      → (test ≡ true → Answers request ids db p)
      → Answers request ids db q
      → Answers request ids db (if test then p else q)
  Answers-if true x y = x refl
  Answers-if false x y = y

  -- Every request is answered with a JSON-RPC 2.0 response with its id that has a result or an
  -- error, and not both. The tables stay as they are, unless the request calls the tool issue.create
  -- whose token is accepted; then they are what the service's tool makes of them.
  pub handle_json_rpc-Answers :
      (request : JsonRpcRequest J) (ids : RequestIds) (db : Db J)
      → Answers request ids db (handle_json_rpc libs json state request ids db)
  unfolding handle_json_rpc ok_response invalid_request method_not_found error_response
  handle_json_rpc-Answers request ids db =
      Answers-if (not (str_eq request.jsonrpc "2.0"))
        (λ e. unchanged (invalid_request request.id "jsonrpc must be exactly '2.0'") refl refl refl)
        (Answers-if (str_eq request.method "initialize")
          (λ e. unchanged (ok_response request.id (initialize_payload json)) refl refl refl)
          (Answers-if (str_eq request.method "tools/list")
            (λ e. unchanged (ok_response request.id (tools_list_payload json)) refl refl refl)
            (Answers-if (str_eq request.method "tools/call")
              (λ e. call_tool-Calls request ids db ((eq_iff request.method "tools/call").0 e))
              (unchanged (method_not_found request.id request.method) refl refl refl))))

  unfoldable pub is_served : String × RequestIds → Bool
  is_served line = not (is_empty (trim line.0))

  answer_line-IsResponse :
      (line : String) (ids : RequestIds) (db : Db J)
      → IsResponse (answer_line libs json state line ids db).1
  unfolding answer_line invalid_request error_response
  answer_line-IsResponse line ids db = elim (Result-cases (json.read_request line)) [
    | inr (error, bad) ↦ ground arith
    | inl (request, read) ↦ rw (read, answer_line) (handle_json_rpc-Answers request ids db).one
  ]

  -- Each line that is not blank is answered once, in order, with a JSON-RPC 2.0 response that has
  -- a result or an error, and not both.
  pub serve_lines-answers :
      (lines : List (String × RequestIds)) (db : Db J)
      → (length (serve_lines libs json state lines db).1 ≡ count_if is_served lines)
        × All IsResponse (serve_lines libs json state lines db).1
  unfolding serve_lines is_served count_if
  serve_lines-answers [] db = (refl, tt)
  serve_lines-answers ((line, ids) ∷ lines) db =
      let answered = answer_line libs json state line ids db in
      elim (Bool-cases (is_empty (trim line))) [
        | inl blank ↦ rw blank (serve_lines-answers lines db)
        | inr served ↦
            let (count, each) = serve_lines-answers lines answered.0 in
            rw served (ap suc count, (answer_line-IsResponse line ids db, each))
      ]
