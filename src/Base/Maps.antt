-- ===== src/Base/Maps.antt =====
-- `HashMap` from texts: a list of pairs without repeated keys.
use dandori.Base.Tests.{str_eq, if◌then◌else◌, eq_iff}
use Prim.Native.String.{String}
use mathlib.Core.Path.{◌≡◌, refl}
use mathlib.Core.Option.{Option, none, some}
use mathlib.Core.List.{List, [], ◌∷◌}
use native.Mathlib.Omega.{arith}

module _ {ℓ} {A : Type ℓ} where
  -- `HashMap::insert`
  unfoldable pub insert_key : String → A → List (String × A) → List (String × A)
  insert_key k a [] = (k, a) ∷ []
  insert_key k a ((j, b) ∷ rest) =
      let after = insert_key k a rest in if str_eq j k then (k, a) ∷ rest else (j, b) ∷ after

  -- `HashMap::get`
  unfoldable pub key_at : String → List (String × A) → Option A
  key_at k [] = none
  key_at k ((j, a) ∷ rest) = if str_eq j k then some a else key_at k rest

  pub key_at-insert :
      (k j : String) (a : A) (keys : List (String × A))
      → key_at k (insert_key j a keys) ≡ (if str_eq j k then some a else key_at k keys)
  unfolding key_at insert_key
  key_at-insert k j a [] = refl
  key_at-insert k j a ((i, b) ∷ rest) =
      ground (arith, key_at-insert k j a rest, eq_iff i j, eq_iff j k, eq_iff i k)
