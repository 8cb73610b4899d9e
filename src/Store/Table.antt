-- ===== src/Store/Table.antt =====
-- What the statements do to a table: `UPDATE … WHERE`, `DELETE … WHERE`, `ORDER BY … LIMIT`.
pub mod Laws
pub mod Keys
pub mod Order
use dandori.Base.{ℕ, List, [], ◌∷◌, Bool, false, ◌&&◌, ◌||◌, ltb, ◌==◌, if◌then◌else◌}

module _ {ℓ} {A : Type ℓ} where
  unfoldable pub update_where : (A → Bool) → (A → A) → List A → List A
  update_where p f [] = []
  update_where p f (x ∷ xs) = let rest = update_where p f xs in (if p x then f x else x) ∷ rest

  -- `before x y` decides that x stands before y.
  unfoldable pub insert_by : (A → A → Bool) → A → List A → List A
  insert_by before x [] = x ∷ []
  insert_by before x (y ∷ ys) =
      let rest = insert_by before x ys in if before y x then y ∷ rest else x ∷ y ∷ ys

  unfoldable pub sort_by : (A → A → Bool) → List A → List A
  unfolding insert_by
  sort_by before [] = []
  sort_by before (x ∷ xs) = insert_by before x (sort_by before xs)

-- `ORDER BY first, second`
unfoldable pub pair_before : ℕ → ℕ → ℕ → ℕ → Bool
pair_before a b c d = ltb a c || (a == c && ltb b d)

unfoldable pub contains : ℕ → List ℕ → Bool
contains x [] = false
contains x (y ∷ ys) = y == x || contains x ys
