-- ===== src/Store/Outbox/Cleanup/Laws.antt =====
-- What the clean-ups delete: crates/dandori-store/src/repositories/outbox.rs.
use dandori.Base.{
  ℕ, ◌<◌, ◌↔◌, ◌⊎◌, ◌&&◌, ◌||◌, ltb, true, Option, Bool, All, subst, ==_iff, ◌≢◌, ◌≡◌, ◌+◌, inl,
  inr, not, if◌then◌else◌, none, some, List, [], ◌∷◌, arith, find, keep, length, count_if,
  Bool-cases, refl, ◌==◌,
}
use dandori.Domain.Ids.{Uuid, Instant}
use dandori.Domain.Auth.{AuthContext}
use dandori.Store.Schema.{OutboxRow, OutboxStatus, pending, leased, failed, delivered, dead_letter}
use dandori.Store.Table.Laws.{Distinct}
use dandori.Store.Outbox.Defs.{row_id, row_at, is_delivered, is_dead_letter, is_below}
use dandori.Store.Outbox.Cleanup.{is_cleaned, cleanup_outbox}

module _ {ℓ} {A : Type ℓ} where
  length-keep-not :
      (p : A → Bool) (xs : List A) → length (keep (λ x. not (p x)) xs) + count_if p xs ≡ length xs
  unfolding keep count_if
  length-keep-not p [] = refl
  length-keep-not p (x ∷ xs) = ground (arith, length-keep-not p xs)

  module _ (key : A → Uuid) (k : Uuid) where
    find_absent :
        (q : A → Bool) (xs : List A)
        → All (λ y. key y ≢ k) xs
        → find (λ y. key y == k) (keep q xs) ≡ none
    unfolding find keep
    find_absent q [] h = refl
    find_absent q (x ∷ xs) h = ground (arith, find_absent q xs h.1)

    find-keep_none :
        (q : A → Bool) (xs : List A)
        → find (λ y. key y == k) xs ≡ none
        → find (λ y. key y == k) (keep q xs) ≡ none
    unfolding find keep
    find-keep_none q [] h = refl
    find-keep_none q (x ∷ xs) h = ground (arith, find-keep_none q xs)

    find-keep-not :
        (p : A → Bool) (xs : List A) (x : A)
        → Distinct key xs
        → find (λ y. key y == k) xs ≡ some x
        → find (λ y. key y == k) (keep (λ y. not (p y)) xs) ≡ (if p x then none else some x)
    unfolding find keep
    find-keep-not p [] x d h = absurd (ground arith)
    find-keep-not p (y ∷ ys) x d h = elim (Bool-cases (key y == k)) [
      | inl e ↦ ground (
        arith,
        find_absent (λ z. not (p z)) ys
            (subst (λ n. All (λ z. key z ≢ n) ys) ((==_iff (key y) k).0 e) d.0),
      )
      | inr e ↦ ground (arith, find-keep-not p ys x d.1)
    ]

-- A row of the tenant that was delivered before the one cutoff, or dead-lettered before the other.
abbrev pub IsOld : {J : Type 0} → Uuid → Instant → Instant → OutboxRow J → Type 0
IsOld ws delivered_before dead_letter_before o =
    (o.workspace_id ≡ ws)
    × (((o.status ≡ delivered) × ((t : ℕ) × (o.published_at ≡ some t) × (t < delivered_before)))
        ⊎ ((o.status ≡ dead_letter) × (o.updated_at < dead_letter_before)))

old_cases :
    (s : OutboxStatus) (published : Option ℕ) (updated before_1 before_2 : ℕ)
    → ((is_delivered s && is_below published before_1 || is_dead_letter s && ltb updated before_2)
        ≡ true)
      ↔ (((s ≡ delivered) × ((t : ℕ) × (published ≡ some t) × (t < before_1)))
          ⊎ ((s ≡ dead_letter) × (updated < before_2)))
old_cases pending p u a b = ((λ h. absurd (ground arith)), (λ h. ground (arith, h)))
old_cases leased p u a b = ((λ h. absurd (ground arith)), (λ h. ground (arith, h)))
old_cases failed p u a b = ((λ h. absurd (ground arith)), (λ h. ground (arith, h)))
old_cases delivered (some t) u a b =
    ((λ h. inl (refl, (t, refl, ground arith))), (λ h. ground (arith, h)))
old_cases delivered none u a b = ((λ h. absurd (ground arith)), (λ h. ground (arith, h)))
old_cases dead_letter p u a b = ((λ h. inr (refl, ground arith)), (λ h. ground (arith, h)))

is_cleaned-IsOld :
    {J : Type 0} (ws : Uuid) (before_1 before_2 : Instant) (o : OutboxRow J)
    → (is_cleaned ws before_1 before_2 o ≡ true) ↔ IsOld ws before_1 before_2 o
unfolding is_cleaned
is_cleaned-IsOld ws a b o =
    let (to, from) = old_cases o.status o.published_at o.updated_at a b in
    ((λ h. (ground arith, to (ground arith))), (λ h. ground (arith, h.0, from h.1)))

module _ {J : Type 0} (auth : AuthContext) (delivered_before dead_letter_before : Instant)
    (rows : List (OutboxRow J)) (distinct : Distinct row_id rows) where
  pub cleanup-row_at :
      (k : Uuid) (o : OutboxRow J)
      → row_at k rows ≡ some o
      → let (after, deleted) = cleanup_outbox auth delivered_before dead_letter_before rows in
        (row_at k after ≡ (
          if is_cleaned auth.workspace_id delivered_before dead_letter_before o
          then none
          else some o))
        × (length after + deleted ≡ length rows)
  unfolding cleanup_outbox
  cleanup-row_at k o found =
      let cleaned = is_cleaned auth.workspace_id delivered_before dead_letter_before in
      (find-keep-not row_id k cleaned rows o distinct found, length-keep-not cleaned rows)

  -- Of distinct rows, `cleanup_outbox` deletes a row exactly if it is the tenant's and either
  -- delivered and published before the one cutoff or dead-lettered and last changed before the
  -- other, keeps each other row as it is, makes no row under an unused id, and returns how many it
  -- has deleted.
  pub cleanup_outbox-deletes :
      (k : Uuid)
      → let (after, deleted) = cleanup_outbox auth delivered_before dead_letter_before rows in
        ((o : OutboxRow J)
          → row_at k rows ≡ some o
          → ((row_at k after ≡ none)
              ↔ IsOld auth.workspace_id delivered_before dead_letter_before o)
            × ((row_at k after ≡ none) ⊎ (row_at k after ≡ some o)))
        × (row_at k rows ≡ none → row_at k after ≡ none)
        × (length after + deleted ≡ length rows)
  unfolding cleanup_outbox
  cleanup_outbox-deletes k =
      let cleaned = is_cleaned auth.workspace_id delivered_before dead_letter_before in
      (
        (λ o found.
            let (at, count) = cleanup-row_at k o found in
            let old = is_cleaned-IsOld auth.workspace_id delivered_before dead_letter_before o in
            elim (Bool-cases (cleaned o)) [
              | inl t ↦
                  (((λ gone. old.0 t), (λ h. ground (arith, at, t))), inl (ground (arith, at, t)))
              | inr t ↦ (
                (
                  (λ gone. absurd (ground (arith, at, t, gone))),
                  (λ h. absurd (ground (arith, t, old.1 h))),
                ),
                inr (ground (arith, at, t)),
              )
            ]),
        find-keep_none row_id k (λ o. not (cleaned o)) rows,
        length-keep-not cleaned rows,
      )
