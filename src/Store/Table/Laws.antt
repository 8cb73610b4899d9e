-- ===== src/Store/Table/Laws.antt =====
-- Laws of the statements on a table whose rows have distinct keys.
use dandori.Base.{
  ℕ, ◌≡◌, ◌≢◌, refl, subst, List, [], ◌∷◌, Bool, true, false, none, some, arith, if◌then◌else◌,
  keep, count_if, any, find, All, Bool-cases, inl, inr,
}
use dandori.Store.Table.{update_where}

module _ {ℓ} {A : Type ℓ} (key : A → ℕ) where
  abbrev pub Distinct : List A → Type 0
  Distinct [] = Unit
  Distinct (x ∷ xs) = All (λ y. key y ≢ key x) xs × Distinct xs

  pub Distinct-keep : (p : A → Bool) (xs : List A) → Distinct xs → Distinct (keep p xs)
  unfolding keep
  Distinct-keep p [] d = tt
  Distinct-keep p (x ∷ xs) d = elim (Bool-cases (p x)) [
    | inl e ↦ rw e (All_keep _ xs d.0, Distinct-keep p xs d.1)
    | inr e ↦ rw e (Distinct-keep p xs d.1)
  ]
    where
      All_keep : (k : ℕ) (ys : List A) → All (λ y. key y ≢ k) ys → All (λ y. key y ≢ k) (keep p ys)
      All_keep k [] h = tt
      All_keep k (y ∷ ys) h = ground (arith, All_keep k ys h.1)

  module _ (f : A → A) (same : (a : A) → key (f a) ≡ key a) where
    All-update_where :
        (k : ℕ) (p : A → Bool) (xs : List A)
        → All (λ y. key y ≢ k) xs
        → All (λ y. key y ≢ k) (update_where p f xs)
    unfolding update_where
    All-update_where k p [] h = tt
    All-update_where k p (x ∷ xs) h = ground (arith, same x, All-update_where k p xs h.1)

    pub Distinct-update_where :
        (p : A → Bool) (xs : List A) → Distinct xs → Distinct (update_where p f xs)
    unfolding update_where
    Distinct-update_where p [] d = tt
    Distinct-update_where p (x ∷ xs) d = elim (Bool-cases (p x)) [
      | inl e ↦ rw (e, same x) (All-update_where (key x) p xs d.0, Distinct-update_where p xs d.1)
      | inr e ↦ rw e (All-update_where (key x) p xs d.0, Distinct-update_where p xs d.1)
    ]

module _ {ℓ} {A : Type ℓ} (p q : A → Bool) (sub : (a : A) → q a ≡ true → p a ≡ true) where
  pub count-found_none : (xs : List A) → find p xs ≡ none → count_if q xs ≡ 0
  unfolding find count_if
  count-found_none [] h = refl
  count-found_none (x ∷ xs) h = ground (arith, sub x, count-found_none xs)

  pub any-found_none : (xs : List A) → find p xs ≡ none → any q xs ≡ false
  unfolding find any
  any-found_none [] h = refl
  any-found_none (x ∷ xs) h = ground (arith, sub x, any-found_none xs)

pub find-holds {ℓ} :
    {A : Type ℓ} (p : A → Bool) (xs : List A) {a : A} → find p xs ≡ some a → p a ≡ true
unfolding find
find-holds p [] h = cc
find-holds p (x ∷ xs) {a} h = elim (Bool-cases (p x)) [
  | inl e ↦ ground arith
  | inr e ↦ find-holds p xs (ground arith)
]

module _ {ℓ} {A : Type ℓ} (key : A → ℕ) (k : ℕ) (q : A → Bool)
    (keyed : (a : A) → q a ≡ true → key a ≡ k) where
  count-others : (xs : List A) → All (λ y. key y ≢ k) xs → count_if q xs ≡ 0
  unfolding count_if
  count-others [] h = refl
  count-others (x ∷ xs) h = ground (arith, keyed x, count-others xs h.1)

  update-others : (f : A → A) (xs : List A) → All (λ y. key y ≢ k) xs → update_where q f xs ≡ xs
  unfolding update_where
  update-others f [] h = refl
  update-others f (x ∷ xs) h = ground (arith, keyed x, update-others f xs h.1)

module _ {ℓ} {A : Type ℓ} (key : A → ℕ) (k : ℕ) (p q : A → Bool)
    (keyed : (a : A) → p a ≡ true → key a ≡ k) (sub : (a : A) → q a ≡ true → p a ≡ true) where
  absent : (x : A) (xs : List A) → p x ≡ true → Distinct key (x ∷ xs) → All (λ y. key y ≢ k) xs
  absent x xs e d = subst (λ n. All (λ y. key y ≢ n) xs) (keyed x e) d.0

  narrow : (a : A) → q a ≡ true → key a ≡ k
  narrow a h = keyed a (sub a h)

  -- With distinct keys a condition that is confined to one key meets the row that is found, or none.
  pub count-found :
      (xs : List A) (a : A)
      → Distinct key xs
      → find p xs ≡ some a
      → count_if q xs ≡ (if q a then 1 else 0)
  unfolding find count_if
  count-found [] a d h = cc
  count-found (x ∷ xs) a d h = elim (Bool-cases (p x)) [
    | inl e ↦ ground (arith, count-others key k q narrow xs (absent x xs e d))
    | inr e ↦ ground (arith, sub x, count-found xs a d.1)
  ]

  -- It then does to the table what the update of that key does.
  pub update-found :
      (f : A → A) (xs : List A) (a : A)
      → Distinct key xs
      → find p xs ≡ some a
      → q a ≡ true
      → update_where q f xs ≡ update_where p f xs
  unfolding find update_where
  update-found f [] a d h t = refl
  update-found f (x ∷ xs) a d h t = elim (Bool-cases (p x)) [
    | inl e ↦ ground (
      arith,
      update-others key k q narrow f xs (absent x xs e d),
      update-others key k p keyed f xs (absent x xs e d),
    )
    | inr e ↦ ground (arith, sub x, update-found f xs a d.1)
  ]

  pub any-found : (xs : List A) (a : A) → find p xs ≡ some a → q a ≡ true → any q xs ≡ true
  unfolding find any
  any-found [] a h t = cc
  any-found (x ∷ xs) a h t = ground (arith, any-found xs a)

-- After an update that keeps the condition, the row is found with its new values.
pub find-update {ℓ} :
    {A : Type ℓ} (p : A → Bool) (f : A → A) (xs : List A) (a : A)
    → ((b : A) → p (f b) ≡ p b)
    → find p xs ≡ some a
    → find p (update_where p f xs) ≡ some (f a)
unfolding find update_where
find-update p f [] a same h = cc
find-update p f (x ∷ xs) a same h = ground (arith, same x, find-update p f xs a same)

-- An update leaves alone what is found by a condition apart from it.
pub find-update_apart {ℓ} :
    {A : Type ℓ} (p q : A → Bool) (f : A → A) (xs : List A)
    → ((a : A) → p a ≡ true → q a ≡ false)
    → ((a : A) → q a ≡ true → p (f a) ≡ false)
    → find p (update_where q f xs) ≡ find p xs
unfolding find update_where
find-update_apart p q f [] apart new = refl
find-update_apart p q f (x ∷ xs) apart new =
    ground (arith, apart x, new x, find-update_apart p q f xs apart new)
