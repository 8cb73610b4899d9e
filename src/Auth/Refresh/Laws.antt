-- ===== src/Auth/Refresh/Laws.antt =====
-- crates/dandori-auth/src/lib.rs: what the refreshing task keeps, whatever its loads come to.
use dandori.Base.{
  ℕ, zero, suc, ◌*◌, ◌^◌, ◌≤◌, ◌<◌, String, Bool, false, ◌&&◌, min, List, [], ◌∷◌, length, arith,
  ◌≡◌, refl, ◌∙◌, ap, ok, err, Result-cases, Bool-cases, leb, sym, inl, inr, is_nil, All,
}
use dandori.Auth.Algorithms.{AuthError}
use dandori.Auth.Keys.{Libraries, JwkKeyset, parse_jwks, is_none}
use dandori.Auth.Keys.Laws.{parse_jwks-eq-ok}
use dandori.Auth.Token.{JwtAuthenticator}
use dandori.Auth.Refresh.{
  JwksRefreshConfig, interval, max_backoff, Fetch, loaded, failed, timed_out, duration_max,
  backed_off, RefreshState, settle_round, refresh_round, refresh_rounds,
}

-- The two durations fit a u64, as the source's fields do.
pub record Fits (refresh : JwksRefreshConfig) : Type 0 where
  pub interval_fits : refresh.interval_millis ≤ 18446744073709551615
  pub backoff_fits : refresh.max_backoff_millis ≤ 18446744073709551615

abbrev pub lacks_keys : {DecodingKey : Type 0} → JwkKeyset DecodingKey → Bool
lacks_keys keyset = is_nil keyset.keys && is_none keyset.fallback_key

-- What the task keeps of an authenticator that it was started for.
pub record IsKept {DecodingKey : Type 0} (refresh : JwksRefreshConfig)
    (auth : JwtAuthenticator DecodingKey) (s : RefreshState DecodingKey) : Type 0 where
  pub not_too_soon : interval refresh ≤ s.next_delay
  pub not_too_late : s.next_delay ≤ max_backoff refresh
  pub same_issuer : s.authenticator.issuer ≡ auth.issuer
  pub same_audience : s.authenticator.audience ≡ auth.audience
  pub same_algorithms : s.authenticator.allowed_algorithms ≡ auth.allowed_algorithms
  pub keyed : lacks_keys s.authenticator.keyset ≡ false

-- A longer delay, doubled `n` times, with `p` for 2 ^ n.
doubled :
    (d p most : ℕ)
    → 0 < p
    → most ≤ duration_max
    → min (min (min (d * 2) duration_max) most * p) most ≡ min (d * (2 * p)) most
doubled d p most h f = elim (Bool-cases (leb (d * 2) most)) [
  | inl short ↦
      let e : min (min (d * 2) duration_max) most ≡ d * 2 = ground arith in
      rw e (ap (λ t. min t most) (grind arith))
  | inr long ↦
      let e : min (min (d * 2) duration_max) most ≡ most = ground arith in
      let a : most ≤ most * p = grind arith in
      let b : most ≤ d * (2 * p) = grind arith in rw e (omega arith)
]

pow-suc : (n : ℕ) → 2 ^ suc n ≡ 2 * 2 ^ n
pow-suc n = omega arith

pow_pos : (n : ℕ) → 0 < 2 ^ n
pow_pos zero = omega arith
pow_pos (suc n) = omega (arith, pow_pos n, pow-suc n)

module _ {Jwk DecodingKey : Type 0} (libs : Libraries Jwk DecodingKey)
    (refresh : JwksRefreshConfig) where
  parse_jwks-keyed :
      (raw : String) (parsed : JwkKeyset DecodingKey)
      → parse_jwks libs raw ≡ ok parsed
      → lacks_keys parsed ≡ false
  parse_jwks-keyed raw parsed h = (parse_jwks-eq-ok libs raw parsed "" h).5

  refresh_round-IsKept :
      (fetched : Fetch) (auth : JwtAuthenticator DecodingKey) (s : RefreshState DecodingKey)
      → Fits refresh
      → IsKept refresh auth s
      → IsKept refresh auth (refresh_round libs refresh fetched s)
  unfolding refresh_round settle_round
  refresh_round-IsKept (loaded raw) auth s f k = elim (Result-cases (parse_jwks libs raw)) [
    | inl (parsed, e) ↦ rw e (ground (arith, parse_jwks-keyed raw parsed e))
    | inr (error, e) ↦ rw e (ground arith)
  ]
  refresh_round-IsKept (failed error) auth s f k = ground arith
  refresh_round-IsKept timed_out auth s f k = ground arith

  pub refresh_rounds-IsKept :
      (fetches : List Fetch) (auth : JwtAuthenticator DecodingKey) (s : RefreshState DecodingKey)
      → Fits refresh
      → IsKept refresh auth s
      → IsKept refresh auth (refresh_rounds libs refresh fetches s)
  unfolding refresh_rounds
  refresh_rounds-IsKept [] auth s f k = k
  refresh_rounds-IsKept (fetched ∷ later) auth s f k =
      refresh_rounds-IsKept later auth (refresh_round libs refresh fetched s) f
        (refresh_round-IsKept fetched auth s f k)

  -- The load of this round gives no key set.
  abbrev pub Fails : Fetch → Type 0
  Fails (loaded raw) = (error : AuthError) × (parse_jwks libs raw ≡ err error)
  Fails (failed error) = Unit
  Fails timed_out = Unit

  refresh_round-Fails :
      (fetched : Fetch) (s : RefreshState DecodingKey)
      → Fails fetched
      → refresh_round libs refresh fetched s
        ≡ record s { next_delay = backed_off refresh s.next_delay }
  unfolding refresh_round settle_round
  refresh_round-Fails (loaded raw) s h = rw h.1 refl
  refresh_round-Fails (failed error) s h = refl
  refresh_round-Fails timed_out s h = refl

  -- While every load fails, the delay doubles up to its limit, and nothing else changes.
  pub refresh_rounds-Fails :
      (fetches : List Fetch) (s : RefreshState DecodingKey)
      → Fits refresh
      → s.next_delay ≤ max_backoff refresh
      → All Fails fetches
      → refresh_rounds libs refresh fetches s
        ≡ record s { next_delay = min (s.next_delay * 2 ^ length fetches) (max_backoff refresh) }
  unfolding refresh_rounds
  refresh_rounds-Fails [] s f l h = ground arith
  refresh_rounds-Fails (fetched ∷ later) s f l h =
      ap (refresh_rounds libs refresh later) (refresh_round-Fails fetched s h.0)
      ∙ (refresh_rounds-Fails later (record s { next_delay = backed_off refresh s.next_delay }) f
            (ground arith) h.1
          ∙ ap (λ d. record s { next_delay = d })
              (doubled s.next_delay (2 ^ length later) (max_backoff refresh)
                  (pow_pos (length later)) (ground arith)
                ∙ ap (λ p. min (s.next_delay * p) (max_backoff refresh))
                    (sym (pow-suc (length later)))))
