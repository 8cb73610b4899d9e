-- ===== src/Auth/Keys.antt =====
-- crates/dandori-auth/src/lib.rs: the set of keys, and how a JWKS document is read into one.
-- What the crates jsonwebtoken, serde_json and uuid compute is a record of functions.
pub mod Laws
use dandori.Base.{
  String, Bool, true, false, ◌&&◌, Option, none, some, List, [], ◌∷◌, is_nil, Result, ok, err,
  fail_if, map_err, ◌>>=◌, ◌>>◌,
}
use dandori.Base.Maps.{insert_key, key_at}
use dandori.Domain.Ids.{Uuid}
use dandori.Auth.Algorithms.{
  Algorithm, KeyAlgorithm, AuthError, invalid_jwks, empty_jwks, build_decoding_key,
  map_key_algorithm,
}

-- The claims that a verified token carries, still texts.
pub record JwtClaims : Type 0 where
  pub sub : String
  pub workspace_id : String

-- jsonwebtoken's `Header`, as far as it is read.
pub record Header : Type 0 where
  pub alg : Algorithm
  pub kid : Option String

-- jsonwebtoken's `Validation`, as far as it is set.
pub record Validation : Type 0 where
  pub algorithm : Algorithm
  pub issuer : String
  pub audience : String

-- `decode` checks the signature, the issuer, the audience and the times at the moment of the call.
pub record Libraries (Jwk DecodingKey : Type 0) : Type 0 where
  pub parse_jwk_set : String → Result (List Jwk) String
  pub key_id : Jwk → Option String
  pub key_algorithm : Jwk → Option KeyAlgorithm
  pub from_jwk : Jwk → Result DecodingKey String
  pub decode_header : String → Result Header String
  pub decode : String → DecodingKey → Validation → Result JwtClaims String
  pub parse_uuid : String → Result Uuid String

pub record JwkEntry (DecodingKey : Type 0) : Type 0 where
  pub decoding_key : DecodingKey
  pub algorithm : Option Algorithm

-- A `HashMap` from key ids is a list without repeated ids.
pub record JwkKeyset (DecodingKey : Type 0) : Type 0 where
  pub keys : List (String × JwkEntry DecodingKey)
  pub fallback_key : Option (JwkEntry DecodingKey)

module _ {ℓ} {A : Type ℓ} where
  abbrev pub or_first : Option A → A → Option A
  or_first none a = some a
  or_first (some b) a = some b

abbrev pub is_none {ℓ} : {A : Type ℓ} → Option A → Bool
is_none none = true
is_none (some a) = false

-- `.map(map_key_algorithm).transpose()?`
unfoldable pub entry_algorithm : Option KeyAlgorithm → Result (Option Algorithm) AuthError
entry_algorithm none = ok none
entry_algorithm (some declared) = do algorithm ← map_key_algorithm declared; ok (some algorithm)

module _ {Jwk DecodingKey : Type 0} (libs : Libraries Jwk DecodingKey) where
  unfoldable pub try_from_jwk : Jwk → Result (JwkEntry DecodingKey) AuthError
  unfolding entry_algorithm
  try_from_jwk jwk = do
    decoding_key ← map_err build_decoding_key (libs.from_jwk jwk)
    algorithm ← entry_algorithm (libs.key_algorithm jwk)
    ok (record { decoding_key = decoding_key; algorithm = algorithm })

  -- The body of the loop over the keys, which keeps the first key without an id.
  unfoldable pub add_key :
      Option String → JwkEntry DecodingKey → JwkKeyset DecodingKey → JwkKeyset DecodingKey
  unfolding insert_key
  add_key (some kid) entry set = record set { keys = insert_key kid entry set.keys }
  add_key none entry set = record set { fallback_key = or_first set.fallback_key entry }

  unfoldable pub load_keys :
      List Jwk → JwkKeyset DecodingKey → Result (JwkKeyset DecodingKey) AuthError
  unfolding try_from_jwk add_key
  load_keys [] set = ok set
  load_keys (jwk ∷ jwks) set = do
    entry ← try_from_jwk jwk
    load_keys jwks (add_key (libs.key_id jwk) entry set)

  unfoldable pub parse_jwks : String → Result (JwkKeyset DecodingKey) AuthError
  unfolding load_keys
  parse_jwks jwks_raw = do
    jwks ← map_err invalid_jwks (libs.parse_jwk_set jwks_raw)
    fail_if (is_nil jwks) empty_jwks
    set ← load_keys jwks (record { keys = []; fallback_key = none })
    fail_if (is_nil set.keys && is_none set.fallback_key) empty_jwks
    ok set
