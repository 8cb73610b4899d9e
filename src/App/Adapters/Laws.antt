-- ===== src/App/Adapters/Laws.antt =====
-- What the two transports answer.
use dandori.Base.{◌≡◌, ◌↔◌, true, ok, err, is_ok, Result-cases, inl, inr, arith}
use dandori.Domain.Auth.{AuthContext}
use dandori.Store.Schema.{Db}
use dandori.App.Error.{internal_message}
use dandori.App.Contract.{CreateIssueRequest, ErrorEnvelope}
use dandori.App.Service.{Services, RequestIds, create_issue}
use dandori.App.Service.Errors.{service-FailsSanitised}
use dandori.App.Adapters.{
  McpJson, status_of, map_transport_error, map_data, handle_rest_create_issue,
  handle_mcp_create_issue,
}

module _ {J : Type 0} (services : Services J) (auth : AuthContext) where
  -- A create over REST answers 201 exactly if it succeeds; an answer with an error leaves the tables
  -- as they were, and one of status 500 shows the constant message alone. A create over MCP whose
  -- payload is read changes the tables as the REST create does and gives the same data or error.
  pub create-transports :
      (mcp : McpJson J) (params : J) (request : CreateIssueRequest) (ids : RequestIds) (db : Db J)
      → mcp.read_request params ≡ ok request
      → let (after, status, envelope) = handle_rest_create_issue services auth request ids db in
        ((status ≡ 201) ↔ (is_ok envelope ≡ true))
        × ((error : ErrorEnvelope)
            → envelope ≡ err error
            → (after ≡ db) × (status ≡ 500 → error.message ≡ internal_message))
        × (handle_mcp_create_issue services auth mcp params ids db
            ≡ (after, map_data mcp.created_value envelope))
  unfolding handle_rest_create_issue handle_mcp_create_issue map_transport_error status_of
  create-transports mcp params request ids db read =
      elim (Result-cases (create_issue services auth request ids db)) [
        | inl (a, e) ↦ (ground arith, (λ error h. absurd (ground arith)), ground arith)
        | inr (x, e) ↦ (
          ground arith,
          (λ error h. (
            ground arith,
            λ five. ground (
              arith,
              (service-FailsSanitised services auth request ids ids.correlation ids.correlation
                    db).0
                  x e,
            ),
          )),
          ground arith,
        )
      ]
