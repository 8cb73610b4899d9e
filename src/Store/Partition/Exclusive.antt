-- ===== src/Store/Partition/Exclusive.antt =====
-- A partition lease over what the other workers do after it:
-- crates/dandori-store/src/repositories/partition.rs.
use dandori.Base.{
  ℕ, ◌≡◌, ◌≢◌, ◌<◌, ◌∙◌, inl, inr, refl, Bool, true, false, not, some, List, [], ◌∷◌, arith, ◌==◌,
  find, keep, is_nil, Bool-cases,
}
use dandori.Domain.Ids.{Uuid, Instant}
use dandori.Store.Schema.{PartitionLease, WorkspaceRow}
use dandori.Store.Table.{contains}
use dandori.Store.Table.Keys.{find-update_where}
use dandori.Store.Partition.{
  ShardBucketRange, lease_at, may_take, acquire_partitions, is_renewed, renew_partitions,
  is_released, release_partitions,
}
use dandori.Store.Partition.Laws.{IsTaken, acquire_partitions-Acquires}

-- A statement of a worker other than `owner`; an acquisition happens before `until`.
pub data OthersStep (owner : Uuid) (until : Instant)
    : List PartitionLease → List PartitionLease → Type 0 where
  acquires :
      (seen : List PartitionLease) (other : Uuid) (now other_until : Instant) (limit : ℕ)
      (buckets : ShardBucketRange) (workspaces : List WorkspaceRow) (leases : List PartitionLease)
      → other ≢ owner
      → now < until
      → OthersStep owner until leases
          (acquire_partitions seen other now other_until limit buckets workspaces leases).0
  renews :
      (other : Uuid) (ids : List Uuid) (now new_until : Instant) (leases : List PartitionLease)
      → other ≢ owner
      → OthersStep owner until leases (renew_partitions other ids now new_until leases).0
  releases :
      (other : Uuid) (ids : List Uuid) (leases : List PartitionLease)
      → other ≢ owner
      → OthersStep owner until leases (release_partitions other ids leases).0

pub data OthersSteps (owner : Uuid) (until : Instant)
    : List PartitionLease → List PartitionLease → Type 0 where
  no_step : {leases : List PartitionLease} → OthersSteps owner until leases leases
  step_then :
      {leases middle after : List PartitionLease}
      → OthersStep owner until leases middle
      → OthersSteps owner until middle after
      → OthersSteps owner until leases after

find-keep_kept :
    {A : Type 0} (r q : A → Bool) (xs : List A) (x : A)
    → find r xs ≡ some x
    → q x ≡ true
    → find r (keep q xs) ≡ some x
unfolding find keep
find-keep_kept r q [] x h t = h
find-keep_kept r q (y ∷ ys) x h t = ground (arith, find-keep_kept r q ys x)

module _ (owner : Uuid) (until : Instant) (k : Uuid) (l : PartitionLease)
    (own : l.lease_owner ≡ owner) (runs : l.leased_until ≡ until) where
  Step-keeps :
      (leases after : List PartitionLease)
      → OthersStep owner until leases after
      → lease_at k leases ≡ some l
      → lease_at k after ≡ some l
  unfolding lease_at may_take renew_partitions is_renewed release_partitions is_released
  Step-keeps _ _
        (OthersStep.acquires seen other now other_until limit buckets workspaces leases apart early)
        at =
      elim (acquire_partitions-Acquires seen other now other_until limit buckets workspaces leases
        k) [ inr (c, e) ↦ e ∙ at | inl (c, m, held) ↦ absurd (ground (arith, apart)) ]
  Step-keeps _ _ (OthersStep.renews other ids now new_until leases apart) at =
      elim (Bool-cases (is_nil ids)) [
        | inl nothing ↦ rw nothing at
        | inr listed ↦ rw listed (
            find-update_where (λ x. x.workspace_id) (is_renewed other ids now)
              (λ x. record x { leased_until = new_until; updated_at = now }) k leases l (λ a. refl)
              at
            ∙ ground (arith, apart))
      ]
  Step-keeps _ _ (OthersStep.releases other ids leases apart) at = elim (Bool-cases (is_nil ids)) [
    | inl nothing ↦ rw nothing at
    | inr listed ↦ rw listed (
        find-keep_kept (λ x. x.workspace_id == k) (λ x. not (is_released other ids x)) leases l at
          (ground (arith, apart)))
  ]

  Steps-keep :
      {leases after : List PartitionLease}
      → OthersSteps owner until leases after
      → lease_at k leases ≡ some l
      → lease_at k after ≡ some l
  Steps-keep OthersSteps.no_step at = at
  Steps-keep (OthersSteps.step_then {leases} {middle} step rest) at =
      Steps-keep rest (Step-keeps leases middle step at)

module _ (seen : List PartitionLease) (owner : Uuid) (now until : Instant) (limit : ℕ)
    (buckets : ShardBucketRange) (workspaces : List WorkspaceRow)
    (leases : List PartitionLease) where
  -- Once a worker has acquired a workspace: whatever other workers acquire before its lease runs
  -- out, renew or release, over whatever snapshots, the lease stays its own until that time, and no
  -- other worker acquires the workspace before it.
  pub acquire_exclusive :
      (later_leases seen_2 : List PartitionLease) (other : Uuid) (later until_2 : Instant)
      (limit_2 : ℕ) (buckets_2 : ShardBucketRange) (workspaces_2 : List WorkspaceRow) (k : Uuid)
      → let (after, acquired) =
          acquire_partitions seen owner now until limit buckets workspaces leases in
        contains k acquired ≡ true
        → OthersSteps owner until after later_leases
        → other ≢ owner
        → later < until
        → IsTaken owner now until k (lease_at k later_leases)
          × (contains k
                (acquire_partitions seen_2 other later until_2 limit_2 buckets_2 workspaces_2
                  later_leases).1
              ≡ false)
  unfolding may_take
  acquire_exclusive later_leases seen_2 other later until_2 limit_2 buckets_2 workspaces_2 k got
        steps apart early =
      elim (acquire_partitions-Acquires seen owner now until limit buckets workspaces leases k) [
        | inr (c, e) ↦ absurd (ground arith)
        | inl (c, m, (l, at, own, till)) ↦
            let kept = Steps-keep owner until k l own till steps at in
            (
              (l, kept, own, till),
              elim (acquire_partitions-Acquires seen_2 other later until_2 limit_2 buckets_2
                  workspaces_2 later_leases k) [
                    | inr (c_2, e) ↦ c_2
                    | inl (c_2, m_2, held) ↦ absurd (ground arith)
                  ],
            )
      ]
