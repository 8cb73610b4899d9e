-- ===== src/Auth/Config.antt =====
-- crates/dandori-auth/src/lib.rs: the configuration from the environment, and an authenticator
-- from it. The environment is a function; a variable that is not Unicode counts as unset, as
-- `std::env::var(…).ok()` has it.
pub mod Laws
use dandori.Base.{ℕ, String, Bool, Option, none, some, List, Result, ok, err, ok_or, ◌>>=◌}
use dandori.Base.Numbers.{parse_unsigned}
use dandori.Auth.Algorithms.{
  Algorithm, AuthError, missing_env, invalid_jwks_source, invalid_env_number,
  parse_allowed_algorithms, default_runtime_allowed_algorithms,
}
use dandori.Auth.Keys.{Libraries, parse_jwks}
use dandori.Auth.Token.{JwtAuthenticator}
use dandori.Auth.Refresh.{JwksRefreshConfig, default_refresh, RefreshState, interval}

abbrev pub Environment : Type 0
Environment = String → Option String

pub data JwksSource : Type 0 where
  file : String → JwksSource
  url : String → JwksSource

pub record OidcConfig : Type 0 where
  pub issuer : String
  pub audience : String
  pub jwks_source : JwksSource
  pub allowed_algorithms : List Algorithm
  pub jwks_refresh : JwksRefreshConfig

abbrev pub u64_max : ℕ
u64_max = 18446744073709551615

-- `match (path, url)`
unfoldable pub choose_source : Option String → Option String → Result JwksSource AuthError
choose_source (some path) none = ok (file path)
choose_source none (some address) = ok (url address)
choose_source none none = err invalid_jwks_source
choose_source (some path) (some address) = err invalid_jwks_source

unfoldable pub parse_env_u64_value : String → ℕ → Option String → Result ℕ AuthError
parse_env_u64_value name default none = ok default
parse_env_u64_value name default (some raw) =
    ok_or (parse_unsigned u64_max raw) (invalid_env_number name)

-- `.map(parse_allowed_algorithms).transpose()?.unwrap_or_else(…)`
unfoldable pub choose_algorithms :
    Bool → Option String → Option String → Result (List Algorithm) AuthError
unfolding parse_allowed_algorithms
choose_algorithms debug_assertions profile none = ok default_runtime_allowed_algorithms
choose_algorithms debug_assertions profile (some value) =
    parse_allowed_algorithms debug_assertions profile value

unfoldable pub parse_env_u64 : Environment → String → ℕ → Result ℕ AuthError
unfolding parse_env_u64_value
parse_env_u64 env name default = parse_env_u64_value name default (env name)

unfoldable pub from_env : Bool → Environment → Result OidcConfig AuthError
unfolding choose_source choose_algorithms parse_env_u64
from_env debug_assertions env = do
  issuer ← ok_or (env "DANDORI_OIDC_ISSUER") (missing_env "DANDORI_OIDC_ISSUER")
  audience ← ok_or (env "DANDORI_OIDC_AUDIENCE") (missing_env "DANDORI_OIDC_AUDIENCE")
  jwks_source ← choose_source (env "DANDORI_OIDC_JWKS_PATH") (env "DANDORI_OIDC_JWKS_URL")
  allowed_algorithms ←
      choose_algorithms debug_assertions (env "DANDORI_PROFILE") (env "DANDORI_OIDC_ALLOWED_ALGS")
  interval_millis ←
      parse_env_u64 env "DANDORI_OIDC_JWKS_REFRESH_INTERVAL_MILLIS" default_refresh.interval_millis
  timeout_millis ←
      parse_env_u64 env "DANDORI_OIDC_JWKS_REFRESH_TIMEOUT_MILLIS" default_refresh.timeout_millis
  max_backoff_millis ←
      parse_env_u64 env "DANDORI_OIDC_JWKS_REFRESH_MAX_BACKOFF_MILLIS"
        default_refresh.max_backoff_millis
  let refresh : JwksRefreshConfig = record {
    interval_millis = interval_millis;
    timeout_millis = timeout_millis;
    max_backoff_millis = max_backoff_millis;
  }
  ok (record {
    issuer = issuer;
    audience = audience;
    jwks_source = jwks_source;
    allowed_algorithms = allowed_algorithms;
    jwks_refresh = refresh;
  })

module _ {Jwk DecodingKey : Type 0} (libs : Libraries Jwk DecodingKey) where
  -- `load_jwks_raw` is given; the result is the authenticator with the task that it starts.
  unfoldable pub from_config :
      (JwksSource → Result String AuthError)
      → OidcConfig
      → Result (RefreshState DecodingKey) AuthError
  unfolding parse_jwks
  from_config load_jwks_raw config = do
    jwks_raw ← load_jwks_raw config.jwks_source
    keyset ← parse_jwks libs jwks_raw
    let authenticator : JwtAuthenticator DecodingKey = record {
      issuer = config.issuer;
      audience = config.audience;
      allowed_algorithms = config.allowed_algorithms;
      keyset = keyset;
    }
    ok (record { next_delay = interval config.jwks_refresh; authenticator = authenticator })
