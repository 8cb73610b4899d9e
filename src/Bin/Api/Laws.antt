-- ===== src/Bin/Api/Laws.antt =====
-- bin/dandori-api/src/lib.rs: no request gets past a token.
use dandori.Base.{
  ℕ, String, false, Option, some, arith, ◌≡◌, ◌⊎◌, inl, inr, refl, Result, ok, err, is_ok,
  Result-cases, Option-cases,
}
use dandori.Store.Schema.{Db}
use dandori.App.Contract.{CreateIssueRequest, CreateIssueResponse, Envelope}
use dandori.App.Service.{RequestIds, create_issue}
use dandori.App.Adapters.{handle_rest_create_issue, map_transport_error}
use dandori.Auth.Keys.{Libraries}
use dandori.Auth.Token.{AuthenticatedClaims, authenticate_token}
use dandori.Auth.Token.Laws.{Accepts, authenticate_token-eq-ok}
use dandori.Bin.Api.{
  ApiState, bearer_token, context_of, map_auth_error, auth_context, create_for, rest_create_issue,
  status_from_u16, transport_err,
}

module _ {J Jwk DecodingKey : Type 0} (libs : Libraries Jwk DecodingKey)
    (state : ApiState J DecodingKey) where
  -- A bearer token that is accepted with these claims.
  pub record Bears (authorization : Option String) (claims : AuthenticatedClaims) : Type 0 where
    pub token : String
    pub bearer : bearer_token authorization ≡ some token
    pub accepted : Accepts libs state.jwt token claims

  -- The request has been carried out for the claims of its token.
  pub record Created {Body : Type 0} (read_body : Body → Result CreateIssueRequest String)
      (authorization : Option String) (body : Body) (ids : RequestIds) (db after : Db J)
      (status : ℕ) (envelope : Envelope CreateIssueResponse) : Type 0 where
    pub claims : AuthenticatedClaims
    pub request : CreateIssueRequest
    pub response : CreateIssueResponse
    pub bears : Bears authorization claims
    pub read : read_body body ≡ ok request
    pub served :
        create_issue state.service (context_of claims) request ids db ≡ ok (after, response)
    pub status_created : status ≡ 201
    pub answered : envelope ≡ ok response

  auth_context-Bears :
      (authorization : Option String)
      → ((claims : AuthenticatedClaims) × (auth_context libs state authorization
            ≡ ok (context_of claims))
          × Bears authorization claims)
        ⊎ ((refusal : ℕ × String) × (auth_context libs state authorization ≡ err refusal)
            × (refusal.0 ≡ 401))
  unfolding auth_context map_auth_error
  auth_context-Bears authorization = elim (Option-cases (bearer_token authorization)) [
    | inl e ↦ inr ((401, "authentication failed"), ground arith, refl)
    | inr (token, e) ↦ elim (Result-cases (authenticate_token libs state.jwt token)) [
      | inl (claims, ok') ↦ inl (
        claims,
        ground arith,
        record {
          token = token;
          bearer = e;
          accepted = (authenticate_token-eq-ok libs state.jwt token claims).0 ok';
        },
      )
      | inr (error, bad) ↦ inr (map_auth_error error, ground arith, refl)
    ]
  ]

  module _ {Body : Type 0} (read_body : Body → Result CreateIssueRequest String)
      (authorization : Option String) (body : Body) (ids : RequestIds) (db : Db J) where
    -- A POST either leaves the tables alone and answers with an error, which is 401 where no
    -- accepted token is shown; or it has run the service for the workspace and the actor that an
    -- accepted token names, and answers 201 with what the service returned.
    pub rest_create_issue-authenticated :
        let (after, status, envelope) =
          rest_create_issue libs state read_body authorization body ids db in
        ((after ≡ db)
          × (is_ok envelope ≡ false)
          × ((status ≡ 401) ⊎ ((claims : AuthenticatedClaims) × Bears authorization claims)))
        ⊎ Created read_body authorization body ids db after status envelope
    unfolding rest_create_issue create_for handle_rest_create_issue transport_err status_from_u16
        map_transport_error
    rest_create_issue-authenticated = elim (auth_context-Bears authorization) [
      | inr (refusal, e, code) ↦ inl (ground arith, ground arith, inl (ground arith))
      | inl (claims, e, bears) ↦ elim (Result-cases (read_body body)) [
        | inr (error, bad) ↦ inl (ground arith, ground arith, inr (claims, bears))
        | inl (request, read) ↦
            elim (Result-cases (create_issue state.service (context_of claims) request ids db)) [
              | inr (error, bad) ↦ inl (ground arith, ground arith, inr (claims, bears))
              | inl (made, served) ↦ inr (record {
                claims = claims;
                request = request;
                response = made.1;
                bears = bears;
                read = read;
                served = ground arith;
                status_created = ground arith;
                answered = ground arith;
              })
            ]
      ]
    ]
