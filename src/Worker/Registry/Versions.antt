-- ===== src/Worker/Registry/Versions.antt =====
-- The versions of an event type, as register keeps them.
use dandori.Base.{
  ℕ, ◌≡◌, ◌≤◌, refl, sym, ap, ◌∙◌, subst, String, Bool, true, false, ◌&&◌, ◌||◌, none, some, List,
  [], ◌∷◌, leb, ltb, str_eq, eq_iff, if◌then◌else◌, any, find, All, arith, Option-cases, Bool-cases,
  inl, inr,
}
use dandori.Store.Table.{insert_by}
use dandori.Store.Table.Keys.{any-insert_by}
use dandori.Worker.Registry.{
  OutboxHandler, OutboxRegistry, empty_registry, versions_of, entry_of, add_version, register,
  find_last,
}

module _ {A : Type 0} where
  pub any_nowhere : (p : A → Bool) → ((a : A) → p a ≡ false) → (xs : List A) → any p xs ≡ false
  unfolding any
  any_nowhere p h [] = refl
  any_nowhere p h (x ∷ xs) = rw (h x, any_nowhere p h xs) refl

  pub any_same : (p q : A → Bool) → ((a : A) → p a ≡ q a) → (xs : List A) → any p xs ≡ any q xs
  unfolding any
  any_same p q h [] = refl
  any_same p q h (x ∷ xs) = rw (h x, any_same p q h xs) refl

  pub any_narrow :
      (p q : A → Bool)
      → ((a : A) → q a ≡ true → p a ≡ true)
      → (xs : List A) → any p xs ≡ false
      → any q xs ≡ false
  unfolding any
  any_narrow p q sub [] h = refl
  any_narrow p q sub (x ∷ xs) h = ground (arith, sub x, any_narrow p q sub xs)

  pub find-any-false :
      (p q : A → Bool) (xs : List A) (x : A) → find p xs ≡ some x → any q xs ≡ false → q x ≡ false
  unfolding find any
  find-any-false p q [] x h k = absurd (ground arith)
  find-any-false p q (y ∷ ys) x h k = ground (arith, find-any-false p q ys x)

module _ {H : Type 0} where
  -- The registry after the handlers have been registered, the last of the list first.
  unfoldable pub registered : List (OutboxHandler H) → OutboxRegistry H
  unfolding register
  registered [] = empty_registry
  registered (h ∷ hs) = register h (registered hs)

  abbrev pub versions : String → List (OutboxHandler H) → List (OutboxHandler H)
  versions t hs = versions_of (entry_of t (registered hs).by_type)

  pub by_key-registered : (hs : List (OutboxHandler H)) → (registered hs).by_key ≡ hs
  unfolding registered register
  by_key-registered [] = refl
  by_key-registered (h ∷ hs) = ap (λ l. h ∷ l) (by_key-registered hs)

  versions-step :
      (t : String) (h : OutboxHandler H) (hs : List (OutboxHandler H))
      → versions t (h ∷ hs) ≡ (
          if str_eq h.event_type t then add_version h (versions h.event_type hs) else versions t hs)
  unfolding registered register entry_of find
  versions-step t h hs = elim (Bool-cases (str_eq h.event_type t)) [
    | inl e ↦ rw e refl
    | inr e ↦ rw e refl
  ]

  pub any-versions :
      (p : OutboxHandler H → Bool) (t : String) (hs : List (OutboxHandler H))
      → any p (versions t hs) ≡ any (λ h. str_eq h.event_type t && p h) hs
  unfolding registered entry_of find any add_version
  any-versions p t [] = refl
  any-versions p t (h ∷ hs) = elim (Bool-cases (str_eq h.event_type t)) [
    | inl e ↦
        ap (any p) (versions-step t h hs)
        ∙ rw e (
            any-insert_by p (λ a new. leb a.schema_version new.schema_version) h
              (versions h.event_type hs)
            ∙ ap (λ b. p h || b) (any-versions p h.event_type hs)
            ∙ ap (λ n. p h || any (λ g. str_eq g.event_type n && p g) hs)
                ((eq_iff h.event_type t).0 e))
    | inr e ↦ ap (any p) (versions-step t h hs) ∙ rw e (any-versions p t hs)
  ]

  abbrev pub Ascending : List (OutboxHandler H) → Type 0
  Ascending [] = Unit
  Ascending (h ∷ hs) = All (λ g. h.schema_version ≤ g.schema_version) hs × Ascending hs

  All-add_version :
      (n : ℕ) (h : OutboxHandler H) (hs : List (OutboxHandler H))
      → n ≤ h.schema_version
      → All (λ g. n ≤ g.schema_version) hs
      → All (λ g. n ≤ g.schema_version) (add_version h hs)
  unfolding add_version insert_by
  All-add_version n h [] b a = (b, tt)
  All-add_version n h (g ∷ hs) b a = ground (arith, All-add_version n h hs b a.1)

  All-above :
      (n m : ℕ) (hs : List (OutboxHandler H))
      → n ≤ m
      → All (λ g. m ≤ g.schema_version) hs
      → All (λ g. n ≤ g.schema_version) hs
  All-above n m [] b a = tt
  All-above n m (g ∷ hs) b a = (omega (arith, a.0), All-above n m hs b a.1)

  Ascending-add_version :
      (h : OutboxHandler H) (hs : List (OutboxHandler H))
      → Ascending hs
      → Ascending (add_version h hs)
  unfolding add_version insert_by
  Ascending-add_version h [] a = (tt, tt)
  Ascending-add_version h (g ∷ hs) a = elim (Bool-cases (leb g.schema_version h.schema_version)) [
    | inl e ↦
        rw e
          (All-add_version g.schema_version h hs (ground arith) a.0, Ascending-add_version h hs a.1)
    | inr e ↦
        rw e ((ground arith, All-above h.schema_version g.schema_version hs (ground arith) a.0), a)
  ]

  pub Ascending-versions : (t : String) (hs : List (OutboxHandler H)) → Ascending (versions t hs)
  unfolding registered entry_of find
  Ascending-versions t [] = tt
  Ascending-versions t (h ∷ hs) = elim (Bool-cases (str_eq h.event_type t)) [
    | inl e ↦
        subst Ascending (sym (versions-step t h hs))
          (rw e (Ascending-add_version h _ (Ascending-versions h.event_type hs)))
    | inr e ↦ subst Ascending (sym (versions-step t h hs)) (rw e (Ascending-versions t hs))
  ]

  pub find_last-none :
      (p : OutboxHandler H → Bool) (hs : List (OutboxHandler H))
      → find_last p hs ≡ none
      → any p hs ≡ false
  unfolding find_last any
  find_last-none p [] h = refl
  find_last-none p (g ∷ hs) h = ground (arith, find_last-none p hs)

  none_below :
      (n : ℕ) (hs : List (OutboxHandler H))
      → All (λ g. n ≤ g.schema_version) hs
      → any (λ g. ltb g.schema_version n) hs ≡ false
  unfolding any
  none_below n [] a = refl
  none_below n (g ∷ hs) a = ground (arith, none_below n hs a.1)

  -- What is found last satisfies the test, is one of the list, and is the highest.
  pub find_last-some :
      (n : ℕ) (hs : List (OutboxHandler H)) (x : OutboxHandler H)
      → Ascending hs
      → let p = λ (h : OutboxHandler H). leb h.schema_version n in
        find_last p hs ≡ some x
        → (p x ≡ true)
          × ((q : OutboxHandler H → Bool) → any q hs ≡ false → q x ≡ false)
          × (any (λ g. p g && ltb x.schema_version g.schema_version) hs ≡ false)
  unfolding find_last any
  find_last-some n [] x a h = absurd (ground arith)
  find_last-some n (g ∷ hs) x a h =
      let p = λ (h : OutboxHandler H). leb h.schema_version n in
      elim (Option-cases (find_last p hs)) [
        | inl e ↦
            let nothing = find_last-none p hs e in
            let same : g ≡ x = ground arith in
            subst
              (λ z.
                (p z ≡ true)
                × ((q : OutboxHandler H → Bool) → any q (g ∷ hs) ≡ false → q z ≡ false)
                × (any (λ k. p k && ltb z.schema_version k.schema_version) (g ∷ hs) ≡ false))
              same
              (
                ground arith,
                λ q k. ground arith,
                ground (
                  arith,
                  any_narrow p (λ k. p k && ltb g.schema_version k.schema_version)
                      (λ k b. ground arith) hs nothing,
                ),
              )
        | inr (y, e) ↦
            let (t, one, top) = find_last-some n hs y a.1 e in
            let same : y ≡ x = ground arith in
            subst
              (λ z.
                (p z ≡ true)
                × ((q : OutboxHandler H → Bool) → any q (g ∷ hs) ≡ false → q z ≡ false)
                × (any (λ k. p k && ltb z.schema_version k.schema_version) (g ∷ hs) ≡ false))
              same
              (
                t,
                λ q k. one q (ground arith),
                ground (
                  arith,
                  top,
                  one (λ z. ltb z.schema_version g.schema_version)
                      (none_below g.schema_version hs a.0),
                ),
              )
      ]
