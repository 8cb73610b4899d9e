-- ===== src/Auth/Keys/Laws.antt =====
-- crates/dandori-auth/src/lib.rs, `parse_jwks`, against a description that knows no loop.
use dandori.Base.{
  String, Bool, false, ◌&&◌, Option, none, some, List, [], ◌∷◌, is_nil, str_eq, arith, ◌≡◌,
  if◌then◌else◌, Result, ok, err, Result-cases, inl, inr, Option-cases,
}
use dandori.Base.Maps.{key_at, key_at-insert}
use dandori.Auth.Keys.{
  Libraries, JwkEntry, JwkKeyset, try_from_jwk, add_key, load_keys, parse_jwks, is_none,
}

abbrev or_else {ℓ} : {A : Type ℓ} → Option A → Option A → Option A
or_else none b = b
or_else (some a) b = some a

abbrev to_option {ℓ κ} : {A : Type ℓ} {E : Type κ} → Result A E → Option A
to_option (ok a) = some a
to_option (err e) = none

abbrev is_named : String → Option String → Bool
is_named kid none = false
is_named kid (some k) = str_eq k kid

module _ {Jwk DecodingKey : Type 0} (libs : Libraries Jwk DecodingKey) where
  -- The entry of the last key with this id.
  unfoldable pub last_named : String → List Jwk → Option (JwkEntry DecodingKey)
  last_named kid [] = none
  last_named kid (jwk ∷ jwks) =
      or_else (last_named kid jwks)
        (if is_named kid (libs.key_id jwk) then to_option (try_from_jwk libs jwk) else none)

  -- The entry of the first key without an id.
  unfoldable pub first_unnamed : List Jwk → Option (JwkEntry DecodingKey)
  first_unnamed [] = none
  first_unnamed (jwk ∷ jwks) =
      let rest = first_unnamed jwks in
      if is_none (libs.key_id jwk) then to_option (try_from_jwk libs jwk) else rest

  load_keys-key_at :
      (kid : String) (jwks : List Jwk) (set loaded : JwkKeyset DecodingKey)
      → load_keys libs jwks set ≡ ok loaded
      → key_at kid loaded.keys ≡ or_else (last_named kid jwks) (key_at kid set.keys)
  unfolding load_keys add_key last_named
  load_keys-key_at kid [] set loaded h = ground arith
  load_keys-key_at kid (jwk ∷ jwks) set loaded h = elim (Result-cases (try_from_jwk libs jwk)) [
    | inr (e, bad) ↦ absurd (ground arith)
    | inl (entry, good) ↦ elim (Option-cases (libs.key_id jwk)) [
      | inl unnamed ↦ ground (arith, load_keys-key_at kid jwks (add_key libs none entry set) loaded)
      | inr (k, named) ↦ ground (
        arith,
        load_keys-key_at kid jwks (add_key libs (some k) entry set) loaded,
        key_at-insert kid k entry set.keys,
      )
    ]
  ]

  load_keys-fallback :
      (jwks : List Jwk) (set loaded : JwkKeyset DecodingKey)
      → load_keys libs jwks set ≡ ok loaded
      → loaded.fallback_key ≡ or_else set.fallback_key (first_unnamed jwks)
  unfolding load_keys add_key first_unnamed
  load_keys-fallback [] set loaded h = elim (Option-cases set.fallback_key) [
    | inl e ↦ ground arith
    | inr (a, e) ↦ ground arith
  ]
  load_keys-fallback (jwk ∷ jwks) set loaded h = elim (Result-cases (try_from_jwk libs jwk)) [
    | inr (e, bad) ↦ absurd (ground arith)
    | inl (entry, good) ↦ elim (Option-cases (libs.key_id jwk)) [
      | inl unnamed ↦ ground (arith, load_keys-fallback jwks (add_key libs none entry set) loaded)
      | inr (k, named) ↦
          ground (arith, load_keys-fallback jwks (add_key libs (some k) entry set) loaded)
    ]
  ]

  -- A document that is accepted lists keys; under an id stands the last key with it, and the
  -- fallback is the first key without one.
  pub parse_jwks-eq-ok :
      (jwks_raw : String) (loaded : JwkKeyset DecodingKey) (kid : String)
      → parse_jwks libs jwks_raw ≡ ok loaded
      → (jwks : List Jwk) × (libs.parse_jwk_set jwks_raw ≡ ok jwks)
        × (is_nil jwks ≡ false)
        × (key_at kid loaded.keys ≡ last_named kid jwks)
        × (loaded.fallback_key ≡ first_unnamed jwks)
        × (is_nil loaded.keys && is_none loaded.fallback_key ≡ false)
  unfolding parse_jwks key_at
  parse_jwks-eq-ok jwks_raw loaded kid h = elim (Result-cases (libs.parse_jwk_set jwks_raw)) [
    | inr (e, bad) ↦ absurd (ground arith)
    | inl (jwks, read) ↦
        elim (Result-cases (load_keys libs jwks (record { keys = []; fallback_key = none }))) [
          | inr (e, bad) ↦ absurd (ground arith)
          | inl (set, good) ↦ (
            jwks,
            read,
            ground arith,
            ground
                (arith, load_keys-key_at kid jwks (record { keys = []; fallback_key = none }) set),
            ground (arith, load_keys-fallback jwks (record { keys = []; fallback_key = none }) set),
            ground arith,
          )
        ]
  ]
