-- ===== src/Auth/Config/Laws.antt =====
-- crates/dandori-auth/src/lib.rs: what a configuration from the environment leads to, from the
-- start of the program to a token after any number of refreshes.
use dandori.Base.{
  ℕ, ◌≤◌, String, Bool, true, false, Option, none, some, List, arith, ◌≡◌, ◌∙◌, subst, Result, ok,
  Result-cases, Option-cases, inl, inr, All,
}
use dandori.Base.Numbers.{parse_unsigned, parse_unsigned-le}
use dandori.Auth.Algorithms.{
  Algorithm, AuthError, prod, current_profile, parse_allowed_algorithms, allows,
}
use dandori.Auth.Algorithms.Laws.{
  is_symmetric, IsAsymmetric, parse_allowed-prod, runtime-prod, allows-All,
}
use dandori.Auth.Keys.{Libraries, Header, parse_jwks}
use dandori.Auth.Keys.Laws.{parse_jwks-eq-ok}
use dandori.Auth.Token.{AuthenticatedClaims, authenticate_token}
use dandori.Auth.Token.Laws.{authenticate_token-eq-ok}
use dandori.Auth.Refresh.{Fetch, RefreshState, refresh_rounds}
use dandori.Auth.Refresh.Laws.{Fits, IsKept, refresh_rounds-IsKept}
use dandori.Auth.Config.{
  Environment, JwksSource, OidcConfig, u64_max, choose_source, choose_algorithms,
  parse_env_u64_value, parse_env_u64, from_env, from_config,
}

choose_algorithms-prod :
    (debug : Bool) (profile value : Option String) (as' : List Algorithm)
    → current_profile debug profile ≡ prod
    → choose_algorithms debug profile value ≡ ok as'
    → All IsAsymmetric as'
unfolding choose_algorithms parse_allowed_algorithms
choose_algorithms-prod debug profile none as' p h = ground (arith, runtime-prod)
choose_algorithms-prod debug profile (some value) as' p h =
    parse_allowed-prod value as' (ground arith)

parse_env_u64_value-le :
    (name : String) (default n : ℕ) (raw : Option String)
    → default ≤ u64_max
    → parse_env_u64_value name default raw ≡ ok n
    → n ≤ u64_max
unfolding parse_env_u64_value
parse_env_u64_value-le name default n none d h = ground arith
parse_env_u64_value-le name default n (some raw) d h =
    elim (Option-cases (parse_unsigned u64_max raw)) [
      | inl e ↦ absurd (ground arith)
      | inr (k, e) ↦
          let h' : k ≡ n = ground arith in
          subst (λ m. m ≤ u64_max) h' (parse_unsigned-le u64_max k raw e)
    ]

parse_env_u64-le :
    (env : Environment) (name : String) (default n : ℕ)
    → default ≤ u64_max
    → parse_env_u64 env name default ≡ ok n
    → n ≤ u64_max
unfolding parse_env_u64
parse_env_u64-le env name default n d h = parse_env_u64_value-le name default n (env name) d h

-- What the steps of `from_env` came to.
record FromEnv (debug : Bool) (env : Environment) (config : OidcConfig) : Type 0 where
  chosen :
      choose_algorithms debug (env "DANDORI_PROFILE") (env "DANDORI_OIDC_ALLOWED_ALGS")
      ≡ ok config.allowed_algorithms
  one_source :
      choose_source (env "DANDORI_OIDC_JWKS_PATH") (env "DANDORI_OIDC_JWKS_URL")
      ≡ ok config.jwks_source
  fits : Fits config.jwks_refresh

abbrev interval_name : String
interval_name = "DANDORI_OIDC_JWKS_REFRESH_INTERVAL_MILLIS"

abbrev backoff_name : String
backoff_name = "DANDORI_OIDC_JWKS_REFRESH_MAX_BACKOFF_MILLIS"

abbrev timeout_name : String
timeout_name = "DANDORI_OIDC_JWKS_REFRESH_TIMEOUT_MILLIS"

from_env-FromEnv :
    (debug : Bool) (env : Environment) (config : OidcConfig)
    → from_env debug env ≡ ok config
    → FromEnv debug env config
unfolding from_env
from_env-FromEnv debug env config h = elim (Option-cases (env "DANDORI_OIDC_ISSUER")) [
  | inl e ↦ absurd (ground arith)
  | inr (issuer, e1) ↦ elim (Option-cases (env "DANDORI_OIDC_AUDIENCE")) [
    | inl e ↦ absurd (ground arith)
    | inr (audience, e2) ↦
        elim (Result-cases
          (choose_source (env "DANDORI_OIDC_JWKS_PATH") (env "DANDORI_OIDC_JWKS_URL"))) [
            | inr (e, bad) ↦ absurd (ground arith)
            | inl (source, e3) ↦
                elim (Result-cases (
                  choose_algorithms debug (env "DANDORI_PROFILE")
                    (env "DANDORI_OIDC_ALLOWED_ALGS"))) [
                      | inr (e, bad) ↦ absurd (ground arith)
                      | inl (algorithms, e4) ↦
                          elim (Result-cases (parse_env_u64 env interval_name 300000)) [
                            | inr (e, bad) ↦ absurd (ground arith)
                            | inl (i, e5) ↦
                                elim (Result-cases (parse_env_u64 env timeout_name 2000)) [
                                  | inr (e, bad) ↦ absurd (ground arith)
                                  | inl (t, e6) ↦
                                      elim (Result-cases (parse_env_u64 env backoff_name 300000)) [
                                        | inr (e, bad) ↦ absurd (ground arith)
                                        | inl (b, e7) ↦ record {
                                          chosen = ground arith;
                                          one_source = ground arith;
                                          fits = record {
                                            interval_fits = ground (
                                              arith,
                                              parse_env_u64-le env interval_name 300000 i
                                                  (omega arith) e5,
                                            );
                                            backoff_fits = ground (
                                              arith,
                                              parse_env_u64-le env backoff_name 300000 b
                                                  (omega arith) e7,
                                            );
                                          };
                                        }
                                      ]
                                ]
                          ]
                    ]
          ]
  ]
]

module _ {Jwk DecodingKey : Type 0} (libs : Libraries Jwk DecodingKey)
    (load_jwks_raw : JwksSource → Result String AuthError) (debug : Bool) (env : Environment)
    (config : OidcConfig) (started : RefreshState DecodingKey) (fetches : List Fetch) where
  -- The state that the rounds lead to.
  abbrev after_rounds : RefreshState DecodingKey
  after_rounds = refresh_rounds libs config.jwks_refresh fetches started

  from_config-IsKept :
      Fits config.jwks_refresh
      → from_config libs load_jwks_raw config ≡ ok started
      → (started.authenticator.allowed_algorithms ≡ config.allowed_algorithms)
        × (started.authenticator.issuer ≡ config.issuer)
        × (started.authenticator.audience ≡ config.audience)
        × IsKept config.jwks_refresh started.authenticator started
  unfolding from_config
  from_config-IsKept f h = elim (Result-cases (load_jwks_raw config.jwks_source)) [
    | inr (e, bad) ↦ absurd (ground arith)
    | inl (raw, e1) ↦ elim (Result-cases (parse_jwks libs raw)) [
      | inr (e, bad) ↦ absurd (ground arith)
      | inl (keyset, e2) ↦
          let keyed = (parse_jwks-eq-ok libs raw keyset "" e2).5 in
          (ground arith, ground arith, ground arith, ground arith)
    ]
  ]

  -- From a configured start on, however the refreshes end: the next one is due between the
  -- interval and the limit, there is a key, and the issuer, the audience and the algorithms are
  -- the configured ones.
  pub refresh_rounds-configured :
      from_env debug env ≡ ok config
      → from_config libs load_jwks_raw config ≡ ok started
      → IsKept config.jwks_refresh started.authenticator after_rounds
        × (after_rounds.authenticator.issuer ≡ config.issuer)
        × (after_rounds.authenticator.audience ≡ config.audience)
        × (after_rounds.authenticator.allowed_algorithms ≡ config.allowed_algorithms)
  refresh_rounds-configured e f =
      let fits = (from_env-FromEnv debug env config e).fits in
      let (as', i, a, k) = from_config-IsKept fits f in
      let kept =
        refresh_rounds-IsKept libs config.jwks_refresh fetches started.authenticator started fits
          k in
      (kept, kept.same_issuer ∙ i, kept.same_audience ∙ a, kept.same_algorithms ∙ as')

  -- In the production profile no token is accepted whose algorithm works with a shared secret,
  -- whatever the environment allows and the refreshes bring.
  pub authenticate_token-prod :
      (token : String) (claims : AuthenticatedClaims) (header : Header)
      → current_profile debug (env "DANDORI_PROFILE") ≡ prod
      → from_env debug env ≡ ok config
      → from_config libs load_jwks_raw config ≡ ok started
      → authenticate_token libs after_rounds.authenticator token ≡ ok claims
      → libs.decode_header token ≡ ok header
      → is_symmetric header.alg ≡ false
  authenticate_token-prod token claims header p e f accepted decoded =
      let a = (authenticate_token-eq-ok libs after_rounds.authenticator token claims).0 accepted in
      let algorithms = (refresh_rounds-configured e f).3 in
      let same : a.header ≡ header = ground (arith, a.decoded) in
      subst (λ (h : Header). is_symmetric h.alg ≡ false) same
        (allows-All config.allowed_algorithms a.header.alg
          (choose_algorithms-prod debug (env "DANDORI_PROFILE") (env "DANDORI_OIDC_ALLOWED_ALGS")
            config.allowed_algorithms p (from_env-FromEnv debug env config e).chosen)
          (subst (λ as'. allows as' a.header.alg ≡ true) algorithms a.allowed))
