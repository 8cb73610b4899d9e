-- ===== src/Store/Table/Keys.antt =====
-- Rows with distinct keys: what a test shows of the row with a key, and how many have a key.
use dandori.Base.{
  ℕ, zero, suc, ◌+◌, ◌≡◌, ◌≢◌, ◌≤◌, refl, sym, List, [], ◌∷◌, Bool, true, false, ◌&&◌, ◌||◌, arith,
  ◌==◌, if◌then◌else◌, find, subst, ==_iff, none, some, keep, count_if, any, map, take, All, length,
  Bool-cases, inl, inr,
}
use dandori.Store.Table.{update_where, insert_by, sort_by, contains}
use dandori.Store.Table.Laws.{Distinct}

module _ {ℓ} {A : Type ℓ} (p : A → Bool) where
  pub any-take : (n : ℕ) (xs : List A) → any p (take n xs) ≡ true → any p xs ≡ true
  unfolding any
  any-take zero xs h = cc
  any-take (suc n) [] h = cc
  any-take (suc n) (x ∷ xs) h = ground (arith, any-take n xs)

  pub any-insert_by :
      (before : A → A → Bool) (x : A) (ys : List A)
      → any p (insert_by before x ys) ≡ (p x || any p ys)
  unfolding any insert_by
  any-insert_by before x [] = ground arith
  any-insert_by before x (y ∷ ys) = ground (arith, any-insert_by before x ys)

  pub any-sort_by : (before : A → A → Bool) (xs : List A) → any p (sort_by before xs) ≡ any p xs
  unfolding any sort_by
  any-sort_by before [] = refl
  any-sort_by before (x ∷ xs) =
      rw (any-insert_by before x (sort_by before xs), any-sort_by before xs)

  pub any-keep : (q : A → Bool) (xs : List A) → any p (keep q xs) ≡ any (λ x. q x && p x) xs
  unfolding any keep
  any-keep q [] = refl
  any-keep q (x ∷ xs) = ground (arith, any-keep q xs)

module _ {ℓ} {A : Type ℓ} (key : A → ℕ) where
  pub contains-map : (k : ℕ) (xs : List A) → contains k (map key xs) ≡ any (λ x. key x == k) xs
  unfolding contains any
  contains-map k [] = refl
  contains-map k (x ∷ xs) = ground (arith, contains-map k xs)

  any_absent :
      (p : A → Bool) (k : ℕ) (xs : List A)
      → All (λ y. key y ≢ k) xs
      → any (λ y. p y && key y == k) xs ≡ false
  unfolding any
  any_absent p k [] h = refl
  any_absent p k (x ∷ xs) h = ground (arith, any_absent p k xs h.1)

  -- With distinct keys, what some row of a key has is what the row that is found has.
  pub any_of_key :
      (p : A → Bool) (k : ℕ) (xs : List A) (x : A)
      → Distinct key xs
      → find (λ y. key y == k) xs ≡ some x
      → any (λ y. p y && key y == k) xs ≡ p x
  unfolding any find
  any_of_key p k [] x d h = cc
  any_of_key p k (y ∷ ys) x d h = elim (Bool-cases (key y == k)) [
    | inl e ↦ ground (
      arith,
      any_absent p k ys (subst (λ n. All (λ z. key z ≢ n) ys) ((==_iff (key y) k).0 e) d.0),
    )
    | inr e ↦ ground (arith, any_of_key p k ys x d.1)
  ]

  pub any_of_no_key :
      (p : A → Bool) (k : ℕ) (xs : List A)
      → find (λ y. key y == k) xs ≡ none
      → any (λ y. p y && key y == k) xs ≡ false
  unfolding any find
  any_of_no_key p k [] h = refl
  any_of_no_key p k (y ∷ ys) h = ground (arith, any_of_no_key p k ys)

  -- What an update makes of the row with a key.
  pub find-update_where :
      (p : A → Bool) (f : A → A) (k : ℕ) (xs : List A) (x : A)
      → ((a : A) → key (f a) ≡ key a)
      → find (λ y. key y == k) xs ≡ some x
      → find (λ y. key y == k) (update_where p f xs) ≡ some (if p x then f x else x)
  unfolding find update_where
  find-update_where p f k [] x same h = cc
  find-update_where p f k (y ∷ ys) x same h = elim (Bool-cases (p y)) [
    | inl e ↦ rw (e, same y) (ground (arith, find-update_where p f k ys x same))
    | inr e ↦ rw e (ground (arith, find-update_where p f k ys x same))
  ]

  pub find-update_none :
      (p : A → Bool) (f : A → A) (k : ℕ) (xs : List A)
      → ((a : A) → key (f a) ≡ key a)
      → find (λ y. key y == k) xs ≡ none
      → find (λ y. key y == k) (update_where p f xs) ≡ none
  unfolding find update_where
  find-update_none p f k [] same h = refl
  find-update_none p f k (y ∷ ys) same h = elim (Bool-cases (p y)) [
    | inl e ↦ rw (e, same y) (ground (arith, find-update_none p f k ys same))
    | inr e ↦ rw e (ground (arith, find-update_none p f k ys same))
  ]

  count_absent : (k : ℕ) (xs : List A) → All (λ y. key y ≢ k) xs → count_if (λ y. k == key y) xs ≡ 0
  unfolding count_if
  count_absent k [] h = refl
  count_absent k (x ∷ xs) h = ground (arith, count_absent k xs h.1)

  count_of_key : (k : ℕ) (xs : List A) → Distinct key xs → count_if (λ y. k == key y) xs ≤ 1
  unfolding count_if
  count_of_key k [] d = omega arith
  count_of_key k (x ∷ xs) d = elim (Bool-cases (k == key x)) [
    | inl e ↦ ground (
      arith,
      count_absent k xs (subst (λ n. All (λ z. key z ≢ n) xs) (sym ((==_iff k (key x)).0 e)) d.0),
    )
    | inr e ↦ ground (arith, count_of_key k xs d.1)
  ]

  count_or :
      (p q : A → Bool) (xs : List A) → count_if (λ y. p y || q y) xs ≤ count_if p xs + count_if q xs
  unfolding count_if
  count_or p q [] = omega arith
  count_or p q (x ∷ xs) = ground (arith, count_or p q xs)

  count_nothing : (xs : List A) → count_if (λ y. false) xs ≡ 0
  unfolding count_if
  count_nothing [] = refl
  count_nothing (x ∷ xs) = count_nothing xs

  -- No more rows with distinct keys have their key in a list than the list is long.
  pub count-contains :
      (ks : List ℕ) (xs : List A)
      → Distinct key xs
      → count_if (λ y. contains (key y) ks) xs ≤ length ks
  unfolding contains
  count-contains [] xs d = omega (arith, count_nothing xs)
  count-contains (k ∷ ks) xs d = omega (
    arith,
    count_or (λ y. k == key y) (λ y. contains (key y) ks) xs,
    count_of_key k xs d,
    count-contains ks xs d,
  )

pub count-keep {ℓ} : {A : Type ℓ} (p : A → Bool) (xs : List A) → length (keep p xs) ≡ count_if p xs
unfolding keep count_if
count-keep p [] = refl
count-keep p (x ∷ xs) = ground (arith, count-keep p xs)

module _ {ℓ} {A : Type ℓ} (p q : A → Bool) where
  pub count-le : ((a : A) → p a ≡ true → q a ≡ true) → (xs : List A) → count_if p xs ≤ count_if q xs
  unfolding count_if
  count-le sub [] = omega arith
  count-le sub (x ∷ xs) = ground (arith, sub x, count-le sub xs)

  pub any_weaken :
      ((a : A) → p a ≡ true → q a ≡ true) → (xs : List A) → any p xs ≡ true → any q xs ≡ true
  unfolding any
  any_weaken sub [] h = cc
  any_weaken sub (x ∷ xs) h = ground (arith, sub x, any_weaken sub xs)

  pub any_and :
      (xs : List A) → All (λ a. p a ≡ true) xs → any q xs ≡ true → any (λ a. p a && q a) xs ≡ true
  unfolding any
  any_and [] a h = cc
  any_and (x ∷ xs) a h = ground (arith, any_and xs a.1)

-- A search by a condition confined to one key finds the row of that key that has it.
pub find-narrow :
    {A : Type 0} (key : A → ℕ) (k : ℕ) (p : A → Bool) (xs : List A) (x : A)
    → ((a : A) → p a ≡ true → key a ≡ k)
    → find (λ y. key y == k) xs ≡ some x
    → p x ≡ true
    → find p xs ≡ some x
unfolding find
find-narrow key k p [] x keyed h t = h
find-narrow key k p (y ∷ ys) x keyed h t = ground (arith, keyed y, find-narrow key k p ys x keyed)
