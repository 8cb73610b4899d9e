-- ===== src/Store/Outbox/Cleanup.antt =====
-- The two clean-ups of crates/dandori-store/src/repositories/outbox.rs
pub mod Laws
use dandori.Base.{ℕ, Bool, not, ◌&&◌, ◌||◌, List, ltb, ◌==◌, keep, count_if}
use dandori.Domain.Ids.{Uuid, Instant}
use dandori.Domain.Auth.{AuthContext}
use dandori.Store.Schema.{OutboxRow, IdempotencyRow}
use dandori.Store.Outbox.Defs.{is_delivered, is_dead_letter, is_below}

module _ {J : Type 0} where
  -- The `WHERE` clause of the DELETE.
  unfoldable pub is_cleaned : Uuid → Instant → Instant → OutboxRow J → Bool
  is_cleaned workspace_id delivered_before dead_letter_before o =
      o.workspace_id == workspace_id
      && (is_delivered o.status && is_below o.published_at delivered_before
          || is_dead_letter o.status && ltb o.updated_at dead_letter_before)

  unfoldable pub cleanup_outbox :
      AuthContext → Instant → Instant → List (OutboxRow J) → List (OutboxRow J) × ℕ
  unfolding is_cleaned keep count_if
  cleanup_outbox auth delivered_before dead_letter_before rows =
      let cleaned = is_cleaned auth.workspace_id delivered_before dead_letter_before in
      (keep (λ o. not (cleaned o)) rows, count_if cleaned rows)

  unfoldable pub is_expired : Uuid → Instant → IdempotencyRow J → Bool
  is_expired workspace_id expires_before r =
      r.workspace_id == workspace_id && ltb r.expires_at expires_before

  unfoldable pub cleanup_idempotency :
      AuthContext → Instant → List (IdempotencyRow J) → List (IdempotencyRow J) × ℕ
  unfolding is_expired keep count_if
  cleanup_idempotency auth expires_before rows =
      let expired = is_expired auth.workspace_id expires_before in
      (keep (λ r. not (expired r)) rows, count_if expired rows)
