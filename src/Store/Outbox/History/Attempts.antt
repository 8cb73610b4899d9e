-- ===== src/Store/Outbox/History/Attempts.antt =====
-- How often a message can fail: crates/dandori-store/src/repositories/outbox.rs over any history.
use dandori.Base.{
  ℕ, suc, ◌+◌, ◌≤◌, ◌<◌, ◌≡◌, ◌≢◌, Bool, true, ◌==◌, some, List, [], ◌∷◌, arith, refl, ok, All,
  find, Bool-cases, inl, inr, subst, ==_iff, ap, ◌∙◌,
}
use dandori.Domain.Ids.{Uuid}
use dandori.Domain.Auth.{AuthContext}
use dandori.Store.Schema.{OutboxRow}
use dandori.Store.Table.Laws.{Distinct}
use dandori.Store.Table.Keys.{find-update_where}
use dandori.Store.Outbox.Defs.{OutboxFailureContext, row_id, row_at, is_dead_letter}
use dandori.Store.Outbox.Lease.{lease_row}
use dandori.Store.Outbox.Mark.{
  mark_outbox_failed, fetch_lease_for_update, is_row, holds_lease, failed_row, delivered_row,
}
use dandori.Store.Outbox.Mark.Laws.{mark_outbox_failed-eq-ok}
use dandori.Store.Outbox.History.{Step, Reachable, is_sound}
use dandori.Store.Outbox.History.Invariant.{Reachable-IsWellFormed}
use dandori.Store.Outbox.History.Lifecycle.{Edge, Step-Follows}

-- A stretch of the history in which a message stays in the table, with the number of times that it
-- is marked failed.
pub data Attempts {J : Type 0} (most : ℕ) (k : Uuid)
    : ℕ → List (OutboxRow J) → List (OutboxRow J) → Type 0 where
  stop : {rows : List (OutboxRow J)} → Attempts most k 0 rows rows
  fail :
      {n : ℕ} {rows settled after : List (OutboxRow J)} (auth : AuthContext)
      (failure : OutboxFailureContext)
      → failure.max_attempts ≡ most
      → mark_outbox_failed auth k failure rows ≡ ok settled
      → Attempts most k n settled after
      → Attempts most k (suc n) rows after
  other :
      {n : ℕ} {rows settled after : List (OutboxRow J)} (o : OutboxRow J)
      → Step most rows settled
      → row_at k settled ≡ some o
      → Attempts most k n settled after
      → Attempts most k n rows after

module _ {A : Type 0} (key : A → ℕ) (k : ℕ) (p : A → Bool)
    (keyed : (a : A) → p a ≡ true → key a ≡ k) where
  find_elsewhere : (xs : List A) (y : A) → All (λ a. key a ≢ k) xs → find p xs ≡ some y → ⊥
  unfolding find
  find_elsewhere [] y h e = ground arith
  find_elsewhere (x ∷ xs) y h e = ground (arith, keyed x, h.0, find_elsewhere xs y h.1)

  find_same :
      (xs : List A) (x y : A)
      → Distinct key xs
      → find (λ a. key a == k) xs ≡ some x
      → find p xs ≡ some y
      → y ≡ x
  unfolding find
  find_same [] x y d f g = absurd (ground arith)
  find_same (z ∷ zs) x y d f g = elim (Bool-cases (p z)) [
    | inl e ↦ ground (arith, keyed z e)
    | inr e ↦ elim (Bool-cases (key z == k)) [
      | inl same ↦ absurd (
          find_elsewhere zs y (subst (λ n. All (λ a. key a ≢ n) zs) ((==_iff (key z) k).0 same) d.0)
            (ground arith))
      | inr unlike ↦ ground (arith, find_same zs x y d.1)
    ]
  ]

module _ {J : Type 0} (most : ℕ) (k : Uuid) where
  same_id :
      (failure : OutboxFailureContext) (n : ℕ) (a : OutboxRow J)
      → row_id (failed_row failure n a) ≡ row_id a
  unfolding failed_row
  same_id failure n a = refl

  -- The row under the id after a failure.
  failed-row_at :
      (auth : AuthContext) (failure : OutboxFailureContext) (rows settled : List (OutboxRow J))
      (o : OutboxRow J)
      → Distinct row_id rows
      → row_at k rows ≡ some o
      → mark_outbox_failed auth k failure rows ≡ ok settled
      → row_at k settled ≡ some (failed_row failure (o.attempts + 1) o)
  unfolding holds_lease fetch_lease_for_update
  failed-row_at auth failure rows settled o d found h =
      let (own, short, (fetched, (held, e))) =
        (mark_outbox_failed-eq-ok auth k failure rows d settled).0 h in
      let same : fetched ≡ o =
        find_same row_id k (is_row auth.workspace_id k) (λ a t. ground arith) rows o fetched d found
          held.0 in
      let own_row : is_row auth.workspace_id k o ≡ true = ground arith in
      let at =
        find-update_where row_id (is_row auth.workspace_id k)
          (failed_row failure (fetched.attempts + 1)) k rows o
          (λ a. same_id failure (fetched.attempts + 1) a) found in
      ap (row_at k) e ∙ ground (arith, at)

  Edge-attempts : (o after : OutboxRow J) → Edge most o after → o.attempts ≤ after.attempts
  unfolding lease_row delivered_row failed_row
  Edge-attempts o after (Edge.kept e) = ground arith
  Edge-attempts o after (Edge.leases now until token owner can e) = rw e (ground arith)
  Edge-attempts o after (Edge.delivers now l e) = rw e (ground arith)
  Edge-attempts o after (Edge.fails failure m l e) = rw e (ground arith)

  settled_row :
      0 < most
      → (o : OutboxRow J) → is_sound most o ≡ true
      → (o.attempts ≤ most) × (o.attempts ≡ most → is_dead_letter o.status ≡ true)
  unfolding is_sound
  settled_row positive o h = (ground arith, λ e. ground arith)

  one_more :
      (failure : OutboxFailureContext) (o : OutboxRow J)
      → (failed_row failure (o.attempts + 1) o).attempts ≡ o.attempts + 1
  unfolding failed_row
  one_more failure o = refl

  -- No step takes attempts back while the row is there.
  step-attempts :
      (rows settled : List (OutboxRow J)) (o q : OutboxRow J)
      → Distinct row_id rows
      → Step most rows settled
      → row_at k rows ≡ some o
      → row_at k settled ≡ some q
      → o.attempts ≤ q.attempts
  step-attempts rows settled o q d step found at =
      elim (Step-Follows most rows settled d step k o found) [
        | inl (gone, done) ↦ absurd (ground arith)
        | inr (p, e, edge) ↦
            let same : p ≡ q = ground arith in
            subst (λ (x : OutboxRow J). o.attempts ≤ x.attempts) same (Edge-attempts o p edge)
      ]

  -- If the limit is at least one, then over any stretch of the history in which a message stays
  -- in the table, whatever other steps come between: its attempts grow by at least the number of
  -- times that it is marked failed, they never exceed the limit, and when they reach it the message
  -- is dead-lettered. So a message is marked failed at most as often as the limit allows.
  pub Attempts-bound :
      0 < most
      → (n : ℕ) (rows after : List (OutboxRow J)) (o : OutboxRow J) → Reachable most rows
      → row_at k rows ≡ some o
      → Attempts most k n rows after
      → (o_after : OutboxRow J) × (row_at k after ≡ some o_after)
        × (o.attempts + n ≤ o_after.attempts)
        × (o_after.attempts ≤ most)
        × (o_after.attempts ≡ most → is_dead_letter o_after.status ≡ true)
  Attempts-bound positive _ _ rows o r found stop =
      let well = Reachable-IsWellFormed most positive rows r in
      let (below, dead) = settled_row positive o (well.sound k o found) in
      (o, found, omega arith, below, dead)
  Attempts-bound positive (suc n) rows after o r found (fail {settled} auth failure m h rest) =
      let well = Reachable-IsWellFormed most positive rows r in
      let reached =
        Reachable.then_step rows settled r (Step.marked_failed auth k failure rows settled m h) in
      let (p, at, more, below, dead) =
        Attempts-bound positive n settled after (failed_row failure (o.attempts + 1) o) reached
          (failed-row_at auth failure rows settled o well.distinct found h) rest in
      (p, at, omega (arith, one_more failure o, more), below, dead)
  Attempts-bound positive n rows after o r found (other {settled} q step at rest) =
      let well = Reachable-IsWellFormed most positive rows r in
      let reached = Reachable.then_step rows settled r step in
      let (p, e, more, below, dead) = Attempts-bound positive n settled after q reached at rest in
      (
        p,
        e,
        omega (arith, more, step-attempts rows settled o q well.distinct step found at),
        below,
        dead,
      )
