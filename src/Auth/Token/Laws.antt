-- ===== src/Auth/Token/Laws.antt =====
-- crates/dandori-auth/src/lib.rs: exactly which tokens are accepted.
use dandori.Base.{
  String, true, Option, none, some, List, [], ◌∷◌, arith, ◌≡◌, ◌↔◌, refl, ok, Result-cases, inl,
  inr,
}
use dandori.Base.Maps.{key_at}
use dandori.Auth.Algorithms.{allows}
use dandori.Auth.Keys.{Libraries, JwtClaims, Header, JwkEntry, JwkKeyset}
use dandori.Auth.Token.{
  AuthenticatedClaims, JwtAuthenticator, agrees, select_unnamed, select_key, validation_for,
  authenticate_token,
}

-- The key that a header may name: the one under its id; without an id the only key, or the
-- fallback if there is no other.
pub data Selects {DecodingKey : Type 0} (keyset : JwkKeyset DecodingKey)
    : Option String → JwkEntry DecodingKey → Type 0 where
  named :
      {kid : String} {entry : JwkEntry DecodingKey}
      → key_at kid keyset.keys ≡ some entry
      → Selects keyset (some kid) entry
  only :
      {entry : JwkEntry DecodingKey} (kid : String)
      → keyset.keys ≡ (kid, entry) ∷ []
      → Selects keyset none entry
  fallback :
      {entry : JwkEntry DecodingKey}
      → keyset.keys ≡ []
      → keyset.fallback_key ≡ some entry
      → Selects keyset none entry

module _ {DecodingKey : Type 0} where
  select_unnamed-Selects :
      (keys : List (String × JwkEntry DecodingKey)) (keyset : JwkKeyset DecodingKey)
      (entry : JwkEntry DecodingKey)
      → keyset.keys ≡ keys
      → select_unnamed keyset ≡ ok entry
      → Selects keyset none entry
  unfolding select_unnamed
  select_unnamed-Selects [] keyset entry e h = fallback e (ground arith)
  select_unnamed-Selects ((k, a) ∷ []) keyset entry e h = only k (ground arith)
  select_unnamed-Selects ((k, a) ∷ b ∷ rest) keyset entry e h = absurd (ground arith)

  select_key-Selects :
      (keyset : JwkKeyset DecodingKey) (kid : Option String) (entry : JwkEntry DecodingKey)
      → select_key keyset kid ≡ ok entry
      → Selects keyset kid entry
  unfolding select_key
  select_key-Selects keyset none entry h =
      select_unnamed-Selects keyset.keys keyset entry refl (ground arith)
  select_key-Selects keyset (some kid) entry h = named (ground arith)

  Selects-select_key :
      {keyset : JwkKeyset DecodingKey} {kid : Option String} {entry : JwkEntry DecodingKey}
      → Selects keyset kid entry
      → select_key keyset kid ≡ ok entry
  unfolding select_key select_unnamed
  Selects-select_key (named e) = ground arith
  Selects-select_key (only k e) = ground arith
  Selects-select_key (fallback e f) = ground arith

-- What has to be so for a token to be accepted with these claims.
pub record Accepts {Jwk DecodingKey : Type 0} (libs : Libraries Jwk DecodingKey)
    (auth : JwtAuthenticator DecodingKey) (token : String) (claims : AuthenticatedClaims)
    : Type 0 where
  pub header : Header
  pub entry : JwkEntry DecodingKey
  pub raw : JwtClaims
  pub decoded : libs.decode_header token ≡ ok header
  pub selected : Selects auth.keyset header.kid entry
  pub agreed : agrees entry.algorithm header.alg ≡ true
  pub allowed : allows auth.allowed_algorithms header.alg ≡ true
  pub verified : libs.decode token entry.decoding_key (validation_for auth header) ≡ ok raw
  pub actor : libs.parse_uuid raw.sub ≡ ok claims.actor_id
  pub workspace : libs.parse_uuid raw.workspace_id ≡ ok claims.workspace_id

module _ {Jwk DecodingKey : Type 0} (libs : Libraries Jwk DecodingKey)
    (auth : JwtAuthenticator DecodingKey) (token : String) (claims : AuthenticatedClaims) where
  accepted : authenticate_token libs auth token ≡ ok claims → Accepts libs auth token claims
  unfolding authenticate_token
  accepted h = elim (Result-cases (libs.decode_header token)) [
    | inr (e, bad) ↦ absurd (ground arith)
    | inl (header, decoded) ↦ elim (Result-cases (select_key auth.keyset header.kid)) [
      | inr (e, bad) ↦ absurd (ground arith)
      | inl (entry, selected) ↦
          elim (Result-cases (libs.decode token entry.decoding_key (validation_for auth header))) [
            | inr (e, bad) ↦ absurd (ground arith)
            | inl (raw, verified) ↦ record {
              header = header;
              entry = entry;
              raw = raw;
              decoded = decoded;
              selected = select_key-Selects auth.keyset header.kid entry selected;
              agreed = ground arith;
              allowed = ground arith;
              verified = verified;
              actor = ground arith;
              workspace = ground arith;
            }
          ]
    ]
  ]

  accepts : Accepts libs auth token claims → authenticate_token libs auth token ≡ ok claims
  unfolding authenticate_token
  accepts a = ground (arith, Selects-select_key a.selected)

  -- A token is accepted with its claims exactly if its header names a key of the set, the key
  -- and the configuration admit its algorithm, and it verifies under that key and algorithm for
  -- the configured issuer and audience, with two ids as the claims.
  pub authenticate_token-eq-ok :
      (authenticate_token libs auth token ≡ ok claims) ↔ Accepts libs auth token claims
  authenticate_token-eq-ok = (accepted, accepts)
