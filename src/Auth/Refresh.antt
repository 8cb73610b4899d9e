-- ===== src/Auth/Refresh.antt =====
-- crates/dandori-auth/src/lib.rs: the task that loads the key set again and again, one function
-- for a round of its loop. What the load of a round came to is given: `load_jwks_raw` reads a file
-- or a URL. Durations are whole milliseconds.
pub mod Laws
use dandori.Base.{ℕ, String, List, [], ◌∷◌, ◌*◌, min, max, Result, ok, err}
use dandori.Auth.Algorithms.{AuthError}
use dandori.Auth.Keys.{Libraries, JwkKeyset, parse_jwks}
use dandori.Auth.Token.{JwtAuthenticator}

pub record JwksRefreshConfig : Type 0 where
  pub interval_millis : ℕ
  pub timeout_millis : ℕ
  pub max_backoff_millis : ℕ

abbrev pub default_refresh : JwksRefreshConfig
default_refresh = record {
  interval_millis = 300000;
  timeout_millis = 2000;
  max_backoff_millis = 300000;
}

abbrev pub interval : JwksRefreshConfig → ℕ
interval refresh = max refresh.interval_millis 1

abbrev pub timeout : JwksRefreshConfig → ℕ
timeout refresh = max refresh.timeout_millis 1

abbrev pub max_backoff : JwksRefreshConfig → ℕ
max_backoff refresh = max refresh.max_backoff_millis (max refresh.interval_millis 1)

-- What `timeout(load_jwks_raw(…))` comes to.
pub data Fetch : Type 0 where
  loaded : String → Fetch
  failed : AuthError → Fetch
  timed_out : Fetch

-- `Duration::MAX`, which `saturating_mul` stops at.
abbrev pub duration_max : ℕ
duration_max = 18446744073709551615999

abbrev pub backed_off : JwksRefreshConfig → ℕ → ℕ
backed_off refresh next_delay = min (min (next_delay * 2) duration_max) (max_backoff refresh)

-- The task's own variable beside the authenticator that it shares the key set with.
pub record RefreshState (DecodingKey : Type 0) : Type 0 where
  pub next_delay : ℕ
  pub authenticator : JwtAuthenticator DecodingKey

module _ {DecodingKey : Type 0} where
  -- The end of a round: `Ok(parsed)` and `Err(error)`.
  unfoldable pub settle_round :
      JwksRefreshConfig
      → Result (JwkKeyset DecodingKey) AuthError
      → RefreshState DecodingKey
      → RefreshState DecodingKey
  settle_round refresh (ok parsed) s = record {
    next_delay = interval refresh;
    authenticator = record s.authenticator { keyset = parsed };
  }
  settle_round refresh (err error) s = record s { next_delay = backed_off refresh s.next_delay }

module _ {Jwk DecodingKey : Type 0} (libs : Libraries Jwk DecodingKey) where
  unfoldable pub refresh_round :
      JwksRefreshConfig → Fetch → RefreshState DecodingKey → RefreshState DecodingKey
  unfolding settle_round parse_jwks
  refresh_round refresh (loaded raw) s = settle_round refresh (parse_jwks libs raw) s
  refresh_round refresh (failed error) s = settle_round refresh (err error) s
  refresh_round refresh timed_out s = record s { next_delay = backed_off refresh s.next_delay }

  -- The loop, for the loads that have ended so far.
  unfoldable pub refresh_rounds :
      JwksRefreshConfig → List Fetch → RefreshState DecodingKey → RefreshState DecodingKey
  unfolding refresh_round
  refresh_rounds refresh [] s = s
  refresh_rounds refresh (fetched ∷ later) s =
      refresh_rounds refresh later (refresh_round refresh fetched s)
