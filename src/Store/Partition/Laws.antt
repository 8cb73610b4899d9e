-- ===== src/Store/Partition/Laws.antt =====
-- Who holds the lease of a workspace: crates/dandori-store/src/repositories/partition.rs.
use dandori.Base.{
  ℕ, ◌≡◌, ◌⊎◌, ◌↔◌, inl, inr, refl, sym, subst, ◌∙◌, Bool, true, false, not, ◌||◌, Option, some,
  List, [], ◌∷◌, arith, ◌==◌, ==_iff, keep, find, Bool-cases, ok, fail_if, ◌>>◌,
}
use dandori.Base.Int.{ℤ, pos, negsuc, ◌≤ℤ◌, ltb_ℤ}
use dandori.Domain.Ids.{Uuid, Instant}
use dandori.Store.Schema.{PartitionLease, WorkspaceRow}
use dandori.Store.Table.{contains}
use dandori.Store.Error.{StoreError}
use dandori.Store.Partition.{
  ShardBucketRange, new_range, in_bounds, lease_at, partition_lease, may_take, put, upsert_all,
  acquire_partitions,
}

two_checks :
    {A : Type 0} (p q : Bool) (e f : StoreError) (a b : A)
    → ((fail_if p e >> (fail_if q f >> ok a)) ≡ ok b) ↔ ((p ≡ false) × (q ≡ false) × (b ≡ a))
two_checks p q e f a b = ground arith

bounds :
    (lowest highest : ℤ)
    → ((not (in_bounds lowest) || not (in_bounds highest)) ≡ false) × (ltb_ℤ highest lowest ≡ false)
      ↔ ((pos 0 ≤ℤ lowest) × (lowest ≤ℤ highest) × (highest ≤ℤ pos 1023))
bounds (pos a) (pos b) = ground arith
bounds (pos a) (negsuc b) = ground arith
bounds (negsuc a) (pos b) = ground arith
bounds (negsuc a) (negsuc b) = ground arith

-- `ShardBucketRange::new` accepts exactly the windows within the buckets 0 to 1023 whose ends are
-- in order.
pub new_range-eq-ok :
    (lowest highest : ℤ) (range : ShardBucketRange)
    → (new_range lowest highest ≡ ok range) ↔ (
        ((pos 0 ≤ℤ lowest) × (lowest ≤ℤ highest) × (highest ≤ℤ pos 1023))
        × (range ≡ record { min = lowest; max = highest }))
unfolding new_range
new_range-eq-ok lowest highest range =
    let checks = two_checks _ _ _ _ (record { min = lowest; max = highest }) range in
    (
      (λ h. let (p, q, e) = checks.0 h in ((bounds lowest highest).0 (p, q), e)),
      (λ (inside, e). let (p, q) = (bounds lowest highest).1 inside in checks.1 (p, q, e)),
    )

module _ (owner : Uuid) (now until : Instant) where
  -- A lease that a worker holds until a time.
  abbrev pub IsTaken : Uuid → Option PartitionLease → Type 0
  IsTaken k found =
      (l : PartitionLease) × (found ≡ some l) × (l.lease_owner ≡ owner) × (l.leased_until ≡ until)

  lease_at-put_own :
      (w : WorkspaceRow) (leases : List PartitionLease)
      → lease_at w.id (put (partition_lease owner now until w) leases)
        ≡ some (partition_lease owner now until w)
  unfolding lease_at find partition_lease
  lease_at-put_own w leases = ground arith

  find-keep_other :
      (k j : Uuid) (leases : List PartitionLease)
      → (k == j) ≡ false
      → find (λ l. l.workspace_id == j) (keep (λ l. not (l.workspace_id == k)) leases)
        ≡ find (λ l. l.workspace_id == j) leases
  unfolding find keep
  find-keep_other k j [] h = refl
  find-keep_other k j (l ∷ leases) h = ground (arith, find-keep_other k j leases h)

  lease_at-put_other :
      (w : WorkspaceRow) (k : Uuid) (leases : List PartitionLease)
      → (w.id == k) ≡ false
      → lease_at k (put (partition_lease owner now until w) leases) ≡ lease_at k leases
  unfolding lease_at find partition_lease
  lease_at-put_other w k leases h = ground (arith, find-keep_other w.id k leases h)

  -- What an upsert shows of a workspace: it is returned and now held, after a lease that the owner
  -- might take, or it is not returned and its lease is as it was.
  abbrev pub Acquires : List PartitionLease → List PartitionLease × List Uuid → Uuid → Type 0
  Acquires leases result k =
      ((contains k result.1 ≡ true)
        × (may_take owner now (lease_at k leases) ≡ true)
        × IsTaken k (lease_at k result.0))
      ⊎ ((contains k result.1 ≡ false) × (lease_at k result.0 ≡ lease_at k leases))

  -- After the lease of the first workspace has been put, what the others show carries over.
  taken_step :
      (w : WorkspaceRow) (ws : List WorkspaceRow) (leases : List PartitionLease) (k : Uuid)
      → may_take owner now (lease_at w.id leases) ≡ true
      → let rest = upsert_all owner now until ws (put (partition_lease owner now until w) leases) in
        Acquires (put (partition_lease owner now until w) leases) rest k
        → Acquires leases (rest.0, w.id ∷ rest.1) k
  unfolding contains partition_lease
  taken_step w ws leases k may rest = elim (Bool-cases (w.id == k)) [
    | inl same ↦
        let own = lease_at-put_own w leases in
        let w_k = (==_iff w.id k).0 same in
        inl (
          ground arith,
          subst (λ n. may_take owner now (lease_at n leases) ≡ true) w_k may,
          elim rest [
            | inl (c, m, held) ↦ held
            | inr (c, e) ↦ (
              partition_lease owner now until w,
              e
                  ∙ subst
                      (λ n.
                        lease_at n (put (partition_lease owner now until w) leases)
                        ≡ some (partition_lease owner now until w))
                      w_k own,
              refl,
              refl,
            )
          ],
        )
    | inr apart ↦ elim rest [
      | inl (c, m, held) ↦
          inl (ground arith, rw (sym (lease_at-put_other w k leases apart)) m, held)
      | inr (c, e) ↦ inr (ground arith, e ∙ lease_at-put_other w k leases apart)
    ]
  ]

  upsert_all-Acquires :
      (ws : List WorkspaceRow) (leases : List PartitionLease) (k : Uuid)
      → Acquires leases (upsert_all owner now until ws leases) k
  unfolding upsert_all contains
  upsert_all-Acquires [] leases k = inr (refl, refl)
  upsert_all-Acquires (w ∷ ws) leases k =
      elim (Bool-cases (may_take owner now (lease_at w.id leases))) [
        | inl e ↦ rw e (taken_step w ws leases k e (upsert_all-Acquires ws _ k))
        | inr e ↦ rw e (upsert_all-Acquires ws leases k)
      ]

module _ (seen : List PartitionLease) (owner : Uuid) (now until : Instant) (limit : ℕ)
    (buckets : ShardBucketRange) (workspaces : List WorkspaceRow)
    (leases : List PartitionLease) where
  -- Whatever snapshot the statement has seen: a workspace that `acquire_partitions` returns was
  -- free, expired or the worker's own, and is the worker's until the new time; the lease of a
  -- workspace that it does not return is as it was.
  pub acquire_partitions-Acquires :
      (k : Uuid)
      → Acquires owner now until leases
          (acquire_partitions seen owner now until limit buckets workspaces leases)
          k
  unfolding acquire_partitions
  acquire_partitions-Acquires k = upsert_all-Acquires owner now until _ leases k
