-- ===== src/Auth/Algorithms.antt =====
-- crates/dandori-auth/src/algorithms.rs, and `AuthError` of crates/dandori-auth/src/lib.rs. An
-- error of another library is the text that it prints.
pub mod Laws
use dandori.Base.{
  String, Bool, true, false, not, ◌&&◌, ◌||◌, Option, none, some, List, [], ◌∷◌, is_nil, str_eq,
  if◌then◌else◌, Result, ok, err, fail_if, ◌>>=◌, ◌>>◌,
}
use dandori.Base.Text.{trim, is_empty, split}

-- jsonwebtoken's `Algorithm`, whose variants the source lists.
pub data Algorithm : Type 0 where
  hs256 hs384 hs512 es256 es384 rs256 rs384 rs512 ps256 ps384 ps512 eddsa : Algorithm

-- jsonwebtoken's `KeyAlgorithm`; `other` is any variant that the source does not name.
pub data KeyAlgorithm : Type 0 where
  key_hs256 key_hs384 key_hs512 key_es256 key_es384 key_rs256 key_rs384 key_rs512 : KeyAlgorithm
  key_ps256 key_ps384 key_ps512 key_eddsa other : KeyAlgorithm

pub data AuthError : Type 0 where
  missing_env : String → AuthError
  invalid_jwks_source : AuthError
  invalid_env_number : String → AuthError
  read_jwks_path : String → String → AuthError
  fetch_jwks_url : String → String → AuthError
  invalid_jwks : String → AuthError
  empty_jwks : AuthError
  build_decoding_key : String → AuthError
  token_header : String → AuthError
  missing_kid : AuthError
  unknown_kid : String → AuthError
  algorithm_mismatch : AuthError
  disallowed_algorithm : Algorithm → AuthError
  token_verify : String → AuthError
  invalid_sub : String → AuthError
  invalid_workspace_id : String → AuthError

pub data AuthProfile : Type 0 where
  dev prod : AuthProfile

unfoldable pub map_key_algorithm : KeyAlgorithm → Result Algorithm AuthError
map_key_algorithm key_hs256 = ok hs256
map_key_algorithm key_hs384 = ok hs384
map_key_algorithm key_hs512 = ok hs512
map_key_algorithm key_es256 = ok es256
map_key_algorithm key_es384 = ok es384
map_key_algorithm key_rs256 = ok rs256
map_key_algorithm key_rs384 = ok rs384
map_key_algorithm key_rs512 = ok rs512
map_key_algorithm key_ps256 = ok ps256
map_key_algorithm key_ps384 = ok ps384
map_key_algorithm key_ps512 = ok ps512
map_key_algorithm key_eddsa = ok eddsa
map_key_algorithm other = err algorithm_mismatch

abbrev pub is_dev : AuthProfile → Bool
is_dev dev = true
is_dev prod = false

-- `algorithm == header.alg`
unfoldable pub same_algorithm : Algorithm → Algorithm → Bool
same_algorithm hs256 hs256 = true
same_algorithm hs384 hs384 = true
same_algorithm hs512 hs512 = true
same_algorithm es256 es256 = true
same_algorithm es384 es384 = true
same_algorithm rs256 rs256 = true
same_algorithm rs384 rs384 = true
same_algorithm rs512 rs512 = true
same_algorithm ps256 ps256 = true
same_algorithm ps384 ps384 = true
same_algorithm ps512 ps512 = true
same_algorithm eddsa eddsa = true
same_algorithm _ _ = false

unfoldable pub parse_asymmetric : String → Option Algorithm
parse_asymmetric item =
    if str_eq item "RS256"
    then some rs256
    else if str_eq item "RS384"
    then some rs384
    else if str_eq item "RS512"
    then some rs512
    else if str_eq item "PS256"
    then some ps256
    else if str_eq item "PS384"
    then some ps384
    else if str_eq item "PS512"
    then some ps512
    else if str_eq item "ES256"
    then some es256
    else if str_eq item "ES384"
    then some es384
    else if str_eq item "EdDSA"
    then some eddsa
    else none

unfoldable pub parse_symmetric : String → Option Algorithm
parse_symmetric item =
    if str_eq item "HS256"
    then some hs256
    else if str_eq item "HS384"
    then some hs384
    else if str_eq item "HS512"
    then some hs512
    else none

-- The `match` on one item of the list: its first nine arms, and the two for the names HS….
unfoldable pub parse_algorithm : AuthProfile → String → Result Algorithm AuthError
parse_algorithm profile item = elim (parse_asymmetric item) [
  | some algorithm ↦ ok algorithm
  | none ↦ elim (parse_symmetric item) [
    | some algorithm ↦ if is_dev profile then ok algorithm else err algorithm_mismatch
    | none ↦ err algorithm_mismatch
  ]
]

-- The loop over the items.
unfoldable pub parse_algorithms : AuthProfile → List String → Result (List Algorithm) AuthError
parse_algorithms profile [] = ok []
parse_algorithms profile (raw ∷ raws) =
    let rest = parse_algorithms profile raws in
    if is_empty (trim raw)
    then rest
    else (do algorithm ← parse_algorithm profile (trim raw); parsed ← rest; ok (algorithm ∷ parsed))

unfoldable pub parse_allowed_algorithms_with_profile :
    String → AuthProfile → Result (List Algorithm) AuthError
unfolding parse_algorithms
parse_allowed_algorithms_with_profile value profile = do
  parsed ← parse_algorithms profile (split "," value)
  fail_if (is_nil parsed) algorithm_mismatch
  ok parsed

-- `debug_assertions` tells a debug build; the text is the variable DANDORI_PROFILE.
unfoldable pub current_profile : Bool → Option String → AuthProfile
current_profile debug_assertions none = if debug_assertions then dev else prod
current_profile debug_assertions (some value) = if str_eq value "dev" then dev else prod

unfoldable pub parse_allowed_algorithms :
    Bool → Option String → String → Result (List Algorithm) AuthError
unfolding parse_allowed_algorithms_with_profile current_profile
parse_allowed_algorithms debug_assertions profile value =
    parse_allowed_algorithms_with_profile value (current_profile debug_assertions profile)

abbrev pub default_runtime_allowed_algorithms : List Algorithm
default_runtime_allowed_algorithms =
    rs256 ∷ rs384 ∷ rs512 ∷ ps256 ∷ ps384 ∷ ps512 ∷ es256 ∷ es384 ∷ eddsa ∷ []

abbrev pub default_test_allowed_algorithms : List Algorithm
default_test_allowed_algorithms =
    hs256 ∷ hs384 ∷ hs512 ∷ rs256 ∷ rs384 ∷ rs512 ∷ ps256 ∷ ps384 ∷ ps512 ∷ es256 ∷ es384 ∷ eddsa
    ∷ []

-- `allowed_algorithms.contains(&alg)`
unfoldable pub allows : List Algorithm → Algorithm → Bool
unfolding same_algorithm
allows [] alg = false
allows (a ∷ as') alg = same_algorithm a alg || allows as' alg
