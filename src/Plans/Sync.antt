-- ===== src/Plans/Sync.antt =====
-- crates/dandori-sync-github/src/lib.rs
use dandori.Base.{String, Outcome, ok, fail_if, ◌>>◌}
use dandori.Base.Text.{is_empty, trim}
use dandori.Domain.Ids.{Uuid}

pub data CrateError : Type 0 where
  validation : String → CrateError

pub record SyncEnvelope : Type 0 where
  pub workspace_id : Uuid
  pub external_id : String
  pub etag : String

unfoldable pub validate : SyncEnvelope → Outcome CrateError
unfolding trim is_empty
validate envelope = do
  fail_if (is_empty (trim envelope.external_id)) (validation "external_id must not be empty")
  fail_if (is_empty (trim envelope.etag)) (validation "etag must not be empty")
  ok tt

-- The trait.
pub record SyncGateway : Type 0 where
  pub upsert : SyncEnvelope → Outcome CrateError

unfoldable pub noop_sync_gateway : SyncGateway
unfolding validate
noop_sync_gateway = record { upsert = validate }
