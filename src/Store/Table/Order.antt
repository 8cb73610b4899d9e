-- ===== src/Store/Table/Order.antt =====
-- `ORDER BY … LIMIT n`: the rows that are kept, and that they come first.
use dandori.Base.{
  ℕ, zero, suc, ◌≡◌, ◌≢◌, refl, ◌∙◌, List, [], ◌∷◌, Bool, true, false, arith, ◌==◌, ==_refl, find,
  subst, none, some, keep, any, take, All, length, Bool-cases, inl, inr,
}
use dandori.Store.Table.{insert_by, sort_by}
use dandori.Store.Table.Laws.{Distinct}

pub All-found {ℓ κ} :
    {A : Type ℓ} (P : A → Type κ) (r : A → Bool) (xs : List A) (x : A)
    → All P xs
    → find r xs ≡ some x
    → P x
unfolding find
All-found P r [] x a h = absurd (ground arith)
All-found P r (y ∷ ys) x a h = elim (Bool-cases (r y)) [
  | inl e ↦ subst P (ground arith) a.0
  | inr e ↦ All-found P r ys x a.1 (ground arith)
]

-- The order of a sorted list: no later row stands before an earlier one.
module _ {ℓ} {A : Type ℓ} (before : A → A → Bool) where
  abbrev pub Sorted : List A → Type 0
  Sorted [] = Unit
  Sorted (x ∷ xs) = All (λ y. before y x ≡ false) xs × Sorted xs

  module _ (asym : (a b : A) → before a b ≡ true → before b a ≡ false)
      (trans : (a b c : A) → before b a ≡ false → before c b ≡ false → before c a ≡ false) where
    All-insert_by :
        (x y : A) (ys : List A)
        → before y x ≡ false
        → All (λ z. before z x ≡ false) ys
        → All (λ z. before z x ≡ false) (insert_by before y ys)
    unfolding insert_by
    All-insert_by x y [] h k = (h, tt)
    All-insert_by x y (z ∷ zs) h k = ground (arith, All-insert_by x y zs h k.1)

    All-trans :
        (x y : A) (ys : List A)
        → before y x ≡ false
        → All (λ z. before z y ≡ false) ys
        → All (λ z. before z x ≡ false) ys
    All-trans x y [] h k = tt
    All-trans x y (z ∷ zs) h k = (trans x y z h k.0, All-trans x y zs h k.1)

    Sorted-insert_by : (x : A) (ys : List A) → Sorted ys → Sorted (insert_by before x ys)
    unfolding insert_by
    Sorted-insert_by x [] s = (tt, tt)
    Sorted-insert_by x (y ∷ ys) s = elim (Bool-cases (before y x)) [
      | inl e ↦ rw e (All-insert_by y x ys (asym y x e) s.0, Sorted-insert_by x ys s.1)
      | inr e ↦ rw e ((e, All-trans x y ys e s.0), s)
    ]

    pub Sorted-sort_by : (xs : List A) → Sorted (sort_by before xs)
    unfolding sort_by
    Sorted-sort_by [] = tt
    Sorted-sort_by (x ∷ xs) = Sorted-insert_by x (sort_by before xs) (Sorted-sort_by xs)

  -- A row that a LIMIT leaves out stands before none that it keeps, and the limit is used up.
  pub take-Sorted :
      (r : A → Bool) (n : ℕ) (xs : List A) (x : A)
      → Sorted xs
      → find r xs ≡ some x
      → any r (take n xs) ≡ false
      → (length (take n xs) ≡ n) × All (λ c. before x c ≡ false) (take n xs)
  unfolding find any
  take-Sorted r zero xs x s f h = (refl, tt)
  take-Sorted r (suc n) [] x s f h = cc
  take-Sorted r (suc n) (y ∷ ys) x s f h = elim (Bool-cases (r y)) [
    | inl e ↦ absurd (ground arith)
    | inr e ↦
        let f' : find r ys ≡ some x = ground arith in
        let rest = take-Sorted r n ys x s.1 f' (ground arith) in
        (omega (arith, rest.0), (All-found (λ c. before c y ≡ false) r ys x s.0 f', rest.1))
  ]

module _ {A : Type 0} (key : A → ℕ) where
  find_absent : (k : ℕ) (xs : List A) → All (λ y. key y ≢ k) xs → find (λ y. key y == k) xs ≡ none
  unfolding find
  find_absent k [] h = refl
  find_absent k (x ∷ xs) h = ground (arith, find_absent k xs h.1)

  find-insert_by :
      (before : A → A → Bool) (k : ℕ) (x : A) (ys : List A)
      → (key x ≡ k → find (λ y. key y == k) ys ≡ none)
      → find (λ y. key y == k) (insert_by before x ys) ≡ find (λ y. key y == k) (x ∷ ys)
  unfolding find insert_by
  find-insert_by before k x [] h = refl
  find-insert_by before k x (y ∷ ys) h = ground (arith, find-insert_by before k x ys)

  -- Sorting and filtering rows with distinct keys: what is found by a key.
  pub find-sort_by :
      (before : A → A → Bool) (k : ℕ) (xs : List A)
      → Distinct key xs
      → find (λ y. key y == k) (sort_by before xs) ≡ find (λ y. key y == k) xs
  unfolding sort_by find
  find-sort_by before k [] d = refl
  find-sort_by before k (x ∷ xs) d =
      find-insert_by before k x (sort_by before xs) (λ e.
        find-sort_by before k xs d.1
        ∙ find_absent k xs (subst (λ n. All (λ z. key z ≢ n) xs) e d.0))
      ∙ rw (find-sort_by before k xs d.1)

  pub find-keep :
      (p : A → Bool) (k : ℕ) (xs : List A) (x : A)
      → find (λ y. key y == k) xs ≡ some x
      → p x ≡ true
      → find (λ y. key y == k) (keep p xs) ≡ some x
  unfolding find keep
  find-keep p k [] x h t = h
  find-keep p k (y ∷ ys) x h t = ground (arith, find-keep p k ys x)

-- With distinct keys, whatever search finds a row, the search for its key finds it.
pub find-widen :
    {A : Type 0} (key : A → ℕ) (p : A → Bool) (xs : List A) (x : A)
    → Distinct key xs
    → find p xs ≡ some x
    → find (λ y. key y == key x) xs ≡ some x
unfolding find
find-widen key p [] x d h = h
find-widen key p (y ∷ ys) x d h = elim (Bool-cases (p y)) [
  | inl e ↦ let same : y ≡ x = ground arith in rw same (ground (arith, ==_refl (key x)))
  | inr e ↦
      let rest : find p ys ≡ some x = ground arith in
      ground (arith, All-found (λ z. key z ≢ key y) p ys x d.0 rest, find-widen key p ys x d.1 rest)
]
