-- ===== src/Auth/Algorithms/Laws.antt =====
-- crates/dandori-auth/src/algorithms.rs: which algorithms a profile admits.
use dandori.Base.{
  String, Bool, true, false, List, [], ◌∷◌, arith, ◌≡◌, ok, inl, inr, if◌then◌else◌, All,
  Result-cases, Option-cases, Option, none, some,
}
use dandori.Base.Text.{split, trim}
use dandori.Auth.Algorithms.{
  Algorithm, hs256, hs384, hs512, parse_asymmetric, prod, same_algorithm, parse_algorithm,
  parse_algorithms, parse_allowed_algorithms_with_profile, allows,
  default_runtime_allowed_algorithms,
}

-- The algorithms whose key is a shared secret.
abbrev pub is_symmetric : Algorithm → Bool
is_symmetric hs256 = true
is_symmetric hs384 = true
is_symmetric hs512 = true
is_symmetric _ = false

pub same_algorithm-eq : (a b : Algorithm) → same_algorithm a b ≡ true → a ≡ b
unfolding same_algorithm
same_algorithm-eq a b h = ground arith

pub same_algorithm_refl : (a : Algorithm) → same_algorithm a a ≡ true
unfolding same_algorithm
same_algorithm_refl a = ground arith

abbrev pub IsAsymmetric : Algorithm → Type 0
IsAsymmetric a = is_symmetric a ≡ false

data NoSecret : Option Algorithm → Type 0 where
  nothing : NoSecret none
  public : {a : Algorithm} → IsAsymmetric a → NoSecret (some a)

NoSecret-if :
    (b : Bool) {x y : Option Algorithm} → NoSecret x → NoSecret y → NoSecret (if b then x else y)
NoSecret-if true p q = p
NoSecret-if false p q = q

parse_asymmetric-NoSecret : (item : String) → NoSecret (parse_asymmetric item)
unfolding parse_asymmetric
parse_asymmetric-NoSecret item = search (NoSecret-if, nothing, public) depth 16

NoSecret-some : {o : Option Algorithm} (a : Algorithm) → NoSecret o → o ≡ some a → IsAsymmetric a
NoSecret-some a nothing e = absurd (ground arith)
NoSecret-some a (public h) e = ground arith

parse_algorithm-prod :
    (item : String) (a : Algorithm) → parse_algorithm prod item ≡ ok a → IsAsymmetric a
unfolding parse_algorithm
parse_algorithm-prod item a h = elim (Option-cases (parse_asymmetric item)) [
  | inl e ↦ absurd (ground arith)
  | inr (b, e) ↦ NoSecret-some a (parse_asymmetric-NoSecret item) (ground arith)
]

parse_algorithms-prod :
    (raws : List String) (as' : List Algorithm)
    → parse_algorithms prod raws ≡ ok as'
    → All IsAsymmetric as'
unfolding parse_algorithms
parse_algorithms-prod [] as' h = ground arith
parse_algorithms-prod (raw ∷ raws) as' h = elim (Result-cases (parse_algorithm prod (trim raw))) [
  | inl (a, one) ↦ elim (Result-cases (parse_algorithms prod raws)) [
    | inl (rest, more) ↦
        ground (arith, parse_algorithm-prod (trim raw) a one, parse_algorithms-prod raws rest more)
    | inr (e, bad) ↦ absurd (ground arith)
  ]
  | inr (e, bad) ↦ ground (arith, parse_algorithms-prod raws as')
]

pub parse_allowed-prod :
    (value : String) (as' : List Algorithm)
    → parse_allowed_algorithms_with_profile value prod ≡ ok as'
    → All IsAsymmetric as'
unfolding parse_allowed_algorithms_with_profile
parse_allowed-prod value as' h = ground (arith, parse_algorithms-prod (split "," value) as')

pub runtime-prod : All IsAsymmetric default_runtime_allowed_algorithms
runtime-prod = ground arith

pub allows-All :
    (as' : List Algorithm) (a : Algorithm)
    → All IsAsymmetric as'
    → allows as' a ≡ true
    → is_symmetric a ≡ false
unfolding allows
allows-All [] a h e = ground arith
allows-All (x ∷ xs) a h e = ground (arith, same_algorithm-eq x a, allows-All xs a h.1)
