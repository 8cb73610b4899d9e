-- ===== src/Auth/Token.antt =====
-- crates/dandori-auth/src/lib.rs: the authenticator and what it does with a token. A lock that a
-- panic has poisoned is read all the same, so the key set is a plain field.
pub mod Laws
use dandori.Base.{
  ℕ, String, Bool, true, false, not, Option, none, some, List, [], ◌∷◌, length, leb, if◌then◌else◌,
  Result, ok, err, fail_if, ok_or, map_err, ◌>>=◌, ◌>>◌,
}
use dandori.Base.Maps.{key_at}
use dandori.Domain.Ids.{Uuid}
use dandori.Auth.Algorithms.{
  Algorithm, AuthError, token_header, missing_kid, unknown_kid, algorithm_mismatch,
  disallowed_algorithm, token_verify, invalid_sub, invalid_workspace_id, same_algorithm, allows,
  default_test_allowed_algorithms,
}
use dandori.Auth.Keys.{Libraries, JwtClaims, Header, Validation, JwkEntry, JwkKeyset, parse_jwks}

pub record AuthenticatedClaims : Type 0 where
  pub actor_id : Uuid
  pub workspace_id : Uuid

pub record JwtAuthenticator (DecodingKey : Type 0) : Type 0 where
  pub issuer : String
  pub audience : String
  pub allowed_algorithms : List Algorithm
  pub keyset : JwkKeyset DecodingKey

-- `keys.values().next()`, which is asked only of a map with one key at most.
abbrev pub first_value {ℓ} : {A : Type ℓ} → List (String × A) → Option A
first_value [] = none
first_value ((k, a) ∷ rest) = some a

-- `if let Some(expected) = selected_key.algorithm { if expected != header.alg … }`
unfoldable pub agrees : Option Algorithm → Algorithm → Bool
agrees none alg = true
agrees (some expected) alg = same_algorithm expected alg

module _ {DecodingKey : Type 0} where
  unfoldable pub select_unnamed : JwkKeyset DecodingKey → Result (JwkEntry DecodingKey) AuthError
  select_unnamed keyset =
      if leb (length keyset.keys) 1
      then elim (first_value keyset.keys) [
        | some entry ↦ ok entry
        | none ↦ ok_or keyset.fallback_key missing_kid
      ]
      else err missing_kid

  unfoldable pub select_key :
      JwkKeyset DecodingKey → Option String → Result (JwkEntry DecodingKey) AuthError
  unfolding select_unnamed key_at
  select_key keyset (some kid) = ok_or (key_at kid keyset.keys) (unknown_kid kid)
  select_key keyset none = select_unnamed keyset

  abbrev pub validation_for : JwtAuthenticator DecodingKey → Header → Validation
  validation_for auth header = record {
    algorithm = header.alg;
    issuer = auth.issuer;
    audience = auth.audience;
  }

module _ {Jwk DecodingKey : Type 0} (libs : Libraries Jwk DecodingKey) where
  unfoldable pub authenticate_token :
      JwtAuthenticator DecodingKey → String → Result AuthenticatedClaims AuthError
  unfolding select_key agrees allows
  authenticate_token auth token = do
    header ← map_err token_header (libs.decode_header token)
    selected_key ← select_key auth.keyset header.kid
    fail_if (not (agrees selected_key.algorithm header.alg)) algorithm_mismatch
    fail_if (not (allows auth.allowed_algorithms header.alg)) (disallowed_algorithm header.alg)
    claims ←
        map_err token_verify
          (libs.decode token selected_key.decoding_key (validation_for auth header))
    actor_id ← map_err invalid_sub (libs.parse_uuid claims.sub)
    workspace_id ← map_err invalid_workspace_id (libs.parse_uuid claims.workspace_id)
    ok (record { actor_id = actor_id; workspace_id = workspace_id })

  unfoldable pub from_jwks_json_with_allowed_algorithms :
      String → String → String → List Algorithm → Result (JwtAuthenticator DecodingKey) AuthError
  unfolding parse_jwks
  from_jwks_json_with_allowed_algorithms issuer audience jwks_raw allowed_algorithms = do
    keyset ← parse_jwks libs jwks_raw
    ok (record {
      issuer = issuer;
      audience = audience;
      allowed_algorithms = allowed_algorithms;
      keyset = keyset;
    })

  unfoldable pub from_jwks_json :
      String → String → String → Result (JwtAuthenticator DecodingKey) AuthError
  unfolding from_jwks_json_with_allowed_algorithms
  from_jwks_json issuer audience jwks_raw =
      from_jwks_json_with_allowed_algorithms issuer audience jwks_raw
        default_test_allowed_algorithms
