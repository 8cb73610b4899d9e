-- ===== src/Tests/Auth.antt =====
-- The authenticator with two keys, its configuration and its refreshes.
use dandori.Base.{
  ℕ, zero, suc, ◌+◌, ◌^◌, ◌*◌, min, ◌≡◌, ◌↔◌, refl, false, String, ◌&&◌, none, some, List, [], ◌∷◌,
  is_nil, Result, ok, err, str_eq, if◌then◌else◌, arith,
}
use dandori.Base.Text.{split, is_empty, trim}
use dandori.Base.Numbers.{parse_unsigned}
use dandori.Base.Maps.{key_at}
use dandori.Auth.Algorithms.{
  AuthError, map_key_algorithm, parse_algorithm, parse_asymmetric, parse_symmetric, es256, rs256,
  key_rs256, prod, current_profile, read_jwks_path,
}
use dandori.Auth.Algorithms.Laws.{is_symmetric}
use dandori.Auth.Keys.{Libraries, JwkEntry, JwkKeyset, is_none, parse_jwks}
use dandori.Auth.Keys.Laws.{last_named, first_unnamed, parse_jwks-eq-ok}
use dandori.Auth.Token.{JwtAuthenticator, AuthenticatedClaims, authenticate_token}
use dandori.Auth.Token.Laws.{Accepts, authenticate_token-eq-ok}
use dandori.Auth.Refresh.{
  JwksRefreshConfig, Fetch, loaded, failed, timed_out, RefreshState, refresh_rounds,
}
use dandori.Auth.Refresh.Laws.{IsKept, refresh_rounds-Fails}
use dandori.Auth.Config.{Environment, JwksSource, OidcConfig, from_env, from_config, file}
use dandori.Auth.Config.Laws.{refresh_rounds-configured, authenticate_token-prod}

-- Two keys under ids, and a third without one.
abbrev pub libraries : Libraries ℕ ℕ
libraries = record {
  parse_jwk_set = λ raw. if str_eq raw "set" then ok (1 ∷ 2 ∷ 3 ∷ []) else err "not JSON";
  key_id = λ n. elim n [
    | suc k ↦ elim k [ zero ↦ some "old" | suc j ↦ elim j [ zero ↦ some "new" | suc i ↦ none ] ]
    | zero ↦ none
  ];
  key_algorithm = λ n. some key_rs256;
  from_jwk = λ n. ok (n + 100);
  decode_header = λ token. ok (record { alg = rs256; kid = some "new" });
  decode = λ token key validation.
      if str_eq validation.issuer "https://issuer"
      then ok (record { sub = "7"; workspace_id = "1" })
      else err "issuer";
  parse_uuid = λ text. if str_eq text "7" then ok 7 else ok 1;
}

abbrev entry : ℕ → JwkEntry ℕ
entry n = record { decoding_key = n; algorithm = some rs256 }

abbrev keyset : JwkKeyset ℕ
keyset = record {
  keys = ("old", entry 101) ∷ ("new", entry 102) ∷ [];
  fallback_key = some (entry 103);
}

parsed : parse_jwks libraries "set" ≡ ok keyset
unfolding parse_jwks map_key_algorithm
parsed = refl

abbrev environment : Environment
environment name =
    if str_eq name "DANDORI_OIDC_ISSUER"
    then some "https://issuer"
    else if str_eq name "DANDORI_OIDC_AUDIENCE"
    then some "dandori"
    else if str_eq name "DANDORI_OIDC_JWKS_PATH"
    then some "/etc/jwks.json"
    else if str_eq name "DANDORI_OIDC_ALLOWED_ALGS"
    then some "ES256, RS256"
    else if str_eq name "DANDORI_OIDC_JWKS_REFRESH_INTERVAL_MILLIS"
    then some "1000"
    else none

abbrev refresh : JwksRefreshConfig
refresh = record { interval_millis = 1000; timeout_millis = 2000; max_backoff_millis = 300000 }

abbrev config : OidcConfig
config = record {
  issuer = "https://issuer";
  audience = "dandori";
  jwks_source = file "/etc/jwks.json";
  allowed_algorithms = es256 ∷ rs256 ∷ [];
  jwks_refresh = refresh;
}

configured : from_env false environment ≡ ok config
unfolding from_env split is_empty trim parse_algorithm parse_asymmetric parse_unsigned
configured = refl

abbrev pub authenticator : JwtAuthenticator ℕ
authenticator = record {
  issuer = "https://issuer";
  audience = "dandori";
  allowed_algorithms = es256 ∷ rs256 ∷ [];
  keyset = keyset;
}

abbrev started : RefreshState ℕ
started = record { next_delay = 1000; authenticator = authenticator }

abbrev read : JwksSource → Result String AuthError
read source = ok "set"

starts : from_config libraries read config ≡ ok started
unfolding from_config map_key_algorithm
starts = refl

abbrev fetches : List Fetch
fetches =
    timed_out
    ∷ loaded "broken"
    ∷ loaded "set"
    ∷ failed (read_jwks_path "/etc/jwks.json" "gone")
    ∷ []

abbrev after : RefreshState ℕ
after = refresh_rounds libraries refresh fetches started

abbrev pub claims : AuthenticatedClaims
claims = record { actor_id = 7; workspace_id = 1 }

accepted : authenticate_token libraries after.authenticator "token" ≡ ok claims
unfolding authenticate_token refresh_rounds map_key_algorithm
accepted = refl

production : current_profile false (environment "DANDORI_PROFILE") ≡ prod
unfolding current_profile
production = refl

-- Symmetric algorithms stop the start of a release build.
abbrev symmetric : Environment
symmetric name =
    if str_eq name "DANDORI_OIDC_ALLOWED_ALGS" then some "RS256,HS256" else environment name

symmetric_refused : from_env false symmetric ≡ err AuthError.algorithm_mismatch
unfolding from_env split is_empty trim parse_algorithm parse_asymmetric parse_symmetric
symmetric_refused = refl

authenticate_token-prod_example : is_symmetric rs256 ≡ false
authenticate_token-prod_example =
    authenticate_token-prod libraries read false environment config started fetches "token" claims
      (record { alg = rs256; kid = some "new" }) production configured starts accepted refl

authenticate_token-eq-ok_example :
    (authenticate_token libraries authenticator "token" ≡ ok claims)
    ↔ Accepts libraries authenticator "token" claims
authenticate_token-eq-ok_example = authenticate_token-eq-ok libraries authenticator "token" claims

refresh_rounds-configured_example :
    IsKept refresh authenticator after
    × (after.authenticator.issuer ≡ "https://issuer")
    × (after.authenticator.audience ≡ "dandori")
    × (after.authenticator.allowed_algorithms ≡ es256 ∷ rs256 ∷ [])
refresh_rounds-configured_example =
    refresh_rounds-configured libraries read false environment config started fetches configured
      starts

parse_jwks-eq-ok_example :
    (jwks : List ℕ) × (libraries.parse_jwk_set "set" ≡ ok jwks)
    × (is_nil jwks ≡ false)
    × (key_at "new" keyset.keys ≡ last_named libraries "new" jwks)
    × (keyset.fallback_key ≡ first_unnamed libraries jwks)
    × (is_nil keyset.keys && is_none keyset.fallback_key ≡ false)
parse_jwks-eq-ok_example = parse_jwks-eq-ok libraries "set" keyset "new" parsed

abbrev failing : List Fetch
failing = timed_out ∷ failed (read_jwks_path "/etc/jwks.json" "gone") ∷ timed_out ∷ []

refresh_rounds-Fails_example :
    refresh_rounds libraries refresh failing started
    ≡ record { next_delay = min (1000 * 2 ^ 3) 300000; authenticator = authenticator }
refresh_rounds-Fails_example =
    refresh_rounds-Fails libraries refresh failing started
      (record { interval_fits = omega arith; backoff_fits = omega arith }) (omega arith)
      (tt, (tt, (tt, tt)))
