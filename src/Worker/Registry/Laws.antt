-- ===== src/Worker/Registry/Laws.antt =====
-- A message goes to the newest handler that its version allows.
use dandori.Base.{
  ℕ, ◌≡◌, sym, ◌∙◌, subst, String, Bool, true, false, not, ◌&&◌, none, some, List, leb, ltb, str_eq,
  any, find, arith, Option-cases, inl, inr,
}
use dandori.Store.Table.Laws.{find-holds}
use dandori.Worker.Registry.{OutboxHandler, is_key, find_last, resolve}
use dandori.Worker.Registry.Versions.{
  any_nowhere, any_same, any_narrow, find-any-false, registered, versions, by_key-registered,
  any-versions, Ascending-versions, find_last-none, find_last-some,
}

module _ {H : Type 0} where
  -- A handler of the event type whose version is not above the one asked for.
  abbrev pub serves : String → ℕ → OutboxHandler H → Bool
  serves t n h = str_eq h.event_type t && leb h.schema_version n

  -- What `resolve` must find: a registered handler that serves, and none that serves is newer.
  abbrev pub IsNewest : List (OutboxHandler H) → String → ℕ → OutboxHandler H → Type 0
  IsNewest hs t n h =
      (serves t n h ≡ true)
      × ((q : OutboxHandler H → Bool) → any q hs ≡ false → q h ≡ false)
      × (any (λ g. serves t n g && ltb h.schema_version g.schema_version) hs ≡ false)

  exact-IsNewest :
      (hs : List (OutboxHandler H)) (t : String) (n : ℕ) (h : OutboxHandler H)
      → find (is_key t n) hs ≡ some h
      → IsNewest hs t n h
  unfolding is_key
  exact-IsNewest hs t n h e =
      let holds = find-holds (is_key t n) hs e in
      (
        ground arith,
        λ q k. find-any-false (is_key t n) q hs h e k,
        any_nowhere (λ g. serves t n g && ltb h.schema_version g.schema_version) (λ g. ground arith)
            hs,
      )

  older-IsNewest :
      (hs : List (OutboxHandler H)) (t : String) (n : ℕ) (h : OutboxHandler H)
      → find_last (λ g. leb g.schema_version n) (versions t hs) ≡ some h
      → IsNewest hs t n h
  older-IsNewest hs t n h e =
      let (holds, one, top) = find_last-some n (versions t hs) h (Ascending-versions t hs) e in
      let typed : not (str_eq h.event_type t) ≡ false =
        one (λ g. not (str_eq g.event_type t))
          (any-versions (λ g. not (str_eq g.event_type t)) t hs
            ∙ any_nowhere (λ g. str_eq g.event_type t && not (str_eq g.event_type t))
                (λ g. ground arith) hs) in
      (
        ground arith,
        λ q k. one q (
            any-versions q t hs
            ∙ any_narrow q (λ g. str_eq g.event_type t && q g) (λ g b. ground arith) hs k),
        any_same (λ g. serves t n g && ltb h.schema_version g.schema_version)
              (λ g.
                str_eq g.event_type t
                && (leb g.schema_version n && ltb h.schema_version g.schema_version))
              (λ g. ground arith) hs
            ∙ sym (
                any-versions (λ g. leb g.schema_version n && ltb h.schema_version g.schema_version)
                  t hs)
            ∙ top,
      )

  -- Whatever handlers have been registered, in whatever order: `resolve` finds one of them that
  -- serves the event type and version such that none that serves is newer, and finds nothing only
  -- if none serves.
  pub resolve-registered :
      (hs : List (OutboxHandler H)) (t : String) (n : ℕ)
      → ((h : OutboxHandler H) → resolve (registered hs) t n ≡ some h → IsNewest hs t n h)
        × (resolve (registered hs) t n ≡ none → any (serves t n) hs ≡ false)
  unfolding resolve
  resolve-registered hs t n = (found, missing)
    where
      found : (h : OutboxHandler H) → resolve (registered hs) t n ≡ some h → IsNewest hs t n h
      found h e = elim (Option-cases (find (is_key t n) hs)) [
        | inl a ↦ older-IsNewest hs t n h (ground (arith, by_key-registered hs))
        | inr (g, a) ↦
            subst (IsNewest hs t n) (ground (arith, by_key-registered hs))
              (exact-IsNewest hs t n g a)
      ]

      missing : resolve (registered hs) t n ≡ none → any (serves t n) hs ≡ false
      missing e =
          sym (any-versions (λ g. leb g.schema_version n) t hs)
          ∙ find_last-none (λ g. leb g.schema_version n) (versions t hs)
              (ground (arith, by_key-registered hs))
