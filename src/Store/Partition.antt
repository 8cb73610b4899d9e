-- ===== src/Store/Partition.antt =====
-- crates/dandori-store/src/repositories/partition.rs, with the SQL function that it calls
-- (crates/dandori-store/src/migration_sql.rs). PostgreSQL runs an INSERT … SELECT over a snapshot,
-- and locks the rows that it conflicts with as they are by then: `seen` and `leases` below.
pub mod Laws
pub mod Exclusive
use dandori.Base.{
  ℕ, String, Bool, true, false, not, ◌&&◌, ◌||◌, Option, none, some, List, [], ◌∷◌, map, min, ltb,
  leb, ◌==◌, if◌then◌else◌, keep, take, any, find, count_if, is_nil, Result, Outcome, ok, fail_if,
  ◌>>◌,
}
use dandori.Base.Text.{append}
use dandori.Base.Int.{ℤ, pos, leb_ℤ, ltb_ℤ, display}
use dandori.Domain.Ids.{Uuid, Instant}
use dandori.Store.Schema.{PartitionLease, WorkspaceRow}
use dandori.Store.Error.{StoreError, invalid_input}
use dandori.Store.Table.{update_where, sort_by, pair_before, contains}

-- Two `i32`; `new` alone makes a range.
pub record ShardBucketRange : Type 0 where
  pub min : ℤ
  pub max : ℤ

abbrev pub max_bucket : ℤ
max_bucket = pos 1023

abbrev pub in_bounds : ℤ → Bool
in_bounds n = leb_ℤ (pos 0) n && leb_ℤ n max_bucket

unfoldable pub new_range : ℤ → ℤ → Result ShardBucketRange StoreError
unfolding display
new_range lowest highest = do
  fail_if (not (in_bounds lowest) || not (in_bounds highest)) (
      invalid_input (
        append "shard bucket range " (
          append (display lowest) (
            append ".." (
              append (display highest)
                (append " out of bounds [0," (append (display max_bucket) "]")))))))
  fail_if (ltb_ℤ highest lowest) (
      invalid_input (
        append "shard bucket range min ("
          (append (display lowest) (append ") exceeds max (" (append (display highest) ")")))))
  ok (record { min = lowest; max = highest })

abbrev pub full : ShardBucketRange
full = record { min = pos 0; max = max_bucket }

unfoldable pub in_window : ShardBucketRange → WorkspaceRow → Bool
in_window buckets w =
    leb_ℤ buckets.min (pos w.shard_bucket) && leb_ℤ (pos w.shard_bucket) buckets.max

-- `ORDER BY shard_bucket, id`
unfoldable pub bucket_before : WorkspaceRow → WorkspaceRow → Bool
unfolding pair_before
bucket_before a b = pair_before a.shard_bucket a.id b.shard_bucket b.id

unfoldable pub list_workspace_ids_for_partition_lease :
    ShardBucketRange → ℕ → List WorkspaceRow → List WorkspaceRow
unfolding in_window bucket_before sort_by keep
list_workspace_ids_for_partition_lease buckets max_rows workspaces =
    take max_rows (sort_by bucket_before (keep (in_window buckets) workspaces))

-- The workspace has a lease that another worker holds beyond `now`.
unfoldable pub is_held_by_other : Uuid → Instant → List PartitionLease → WorkspaceRow → Bool
unfolding any
is_held_by_other owner_id now seen w =
    any (λ l. l.workspace_id == w.id && ltb now l.leased_until && not (l.lease_owner == owner_id))
      seen

unfoldable pub lease_at : Uuid → List PartitionLease → Option PartitionLease
unfolding find
lease_at workspace_id leases = find (λ l. l.workspace_id == workspace_id) leases

unfoldable pub partition_lease : Uuid → Instant → Instant → WorkspaceRow → PartitionLease
partition_lease owner_id now lease_until w = record {
  workspace_id = w.id;
  shard_bucket = w.shard_bucket;
  lease_owner = owner_id;
  leased_at = now;
  leased_until = lease_until;
  updated_at = now;
}

-- `WHERE leased_until <= excluded.leased_at OR lease_owner = excluded.lease_owner`; a workspace
-- with no lease meets no conflict.
unfoldable pub may_take : Uuid → Instant → Option PartitionLease → Bool
may_take owner_id now none = true
may_take owner_id now (some l) = leb l.leased_until now || l.lease_owner == owner_id

-- `INSERT … ON CONFLICT (workspace_id) DO UPDATE` of a row that is taken.
abbrev pub put : PartitionLease → List PartitionLease → List PartitionLease
put lease leases = lease ∷ keep (λ l. not (l.workspace_id == lease.workspace_id)) leases

-- The candidates in their order, and `RETURNING workspace_id`.
unfoldable pub upsert_all :
    Uuid
    → Instant
    → Instant
    → List WorkspaceRow
    → List PartitionLease
    → List PartitionLease × List Uuid
unfolding lease_at partition_lease may_take keep
upsert_all owner_id now lease_until [] leases = (leases, [])
upsert_all owner_id now lease_until (w ∷ ws) leases =
    let taken =
      upsert_all owner_id now lease_until ws
        (put (partition_lease owner_id now lease_until w) leases) in
    let passed = upsert_all owner_id now lease_until ws leases in
    if may_take owner_id now (lease_at w.id leases) then (taken.0, w.id ∷ taken.1) else passed

-- `limit` is an `i64` that is not negative: `partition_batch` is a `usize`.
unfoldable pub acquire_partitions :
    List PartitionLease
    → Uuid
    → Instant
    → Instant
    → ℕ
    → ShardBucketRange
    → List WorkspaceRow
    → List PartitionLease
    → List PartitionLease × List Uuid
unfolding upsert_all is_held_by_other list_workspace_ids_for_partition_lease keep
acquire_partitions seen owner_id now lease_until limit buckets workspaces leases =
    let listed = list_workspace_ids_for_partition_lease buckets (min limit 2147483647) workspaces in
    upsert_all owner_id now lease_until
      (keep (λ w. not (is_held_by_other owner_id now seen w)) listed) leases

unfoldable pub is_renewed : Uuid → List Uuid → Instant → PartitionLease → Bool
unfolding contains
is_renewed owner_id workspace_ids now l =
    contains l.workspace_id workspace_ids && l.lease_owner == owner_id && ltb now l.leased_until

unfoldable pub renew_partitions :
    Uuid → List Uuid → Instant → Instant → List PartitionLease → List PartitionLease × List Uuid
unfolding is_renewed update_where keep
renew_partitions owner_id workspace_ids now new_lease_until leases =
    if is_nil workspace_ids then (leases, []) else (
      update_where (is_renewed owner_id workspace_ids now)
          (λ l. record l { leased_until = new_lease_until; updated_at = now }) leases,
      map (λ l. l.workspace_id) (keep (is_renewed owner_id workspace_ids now) leases),
    )

unfoldable pub is_released : Uuid → List Uuid → PartitionLease → Bool
unfolding contains
is_released owner_id workspace_ids l =
    contains l.workspace_id workspace_ids && l.lease_owner == owner_id

unfoldable pub release_partitions : Uuid → List Uuid → List PartitionLease → List PartitionLease × ℕ
unfolding is_released keep count_if
release_partitions owner_id workspace_ids leases = if is_nil workspace_ids then (leases, 0) else (
  keep (λ l. not (is_released owner_id workspace_ids l)) leases,
  count_if (is_released owner_id workspace_ids) leases,
)
