-- ===== src/Worker/Service/Poison.antt =====
-- A failure that the store refuses in a batch: process_leased of
-- crates/dandori-app-services/src/worker/service.rs.
use dandori.Base.{◌≡◌, ◌≢◌, ◌∙◌, refl, sym, ap, true, some, List, [], ◌∷◌, ◌++◌, All, err, arith}
use dandori.Domain.Ids.{Uuid}
use dandori.Domain.Auth.{AuthContext}
use dandori.Store.Schema.{OutboxRow}
use dandori.Store.Table.Laws.{Distinct}
use dandori.Store.Table.Keys.{find-narrow}
use dandori.Store.Outbox.Defs.{row_id, row_at}
use dandori.Store.Outbox.Mark.{is_row, holds_lease, fetch_lease_for_update, last_error_too_long}
use dandori.App.Error.{internal}
use dandori.Worker.Config.{OutboxWorkerConfig, WorkerRunReport}
use dandori.Worker.Publish.{PublishError}
use dandori.Worker.Service.{Completion, failure_context, process_leased}
use dandori.Worker.Service.Laws.{process_leased-refused}
use dandori.Worker.Service.Batch.{
  completed_id, row_after, row_after-absent, row_after-cons, IsSettleable, after_one,
  after_one-Distinct, apply-after, elsewhere, row_of_one, kept,
}

module _ {J : Type 0} (config : OutboxWorkerConfig) (auth : AuthContext) (correlation : Uuid)
    (c : Completion J) (error : PublishError) (failed : c.outcome ≡ err error)
    (own : c.message.lease_owner ≡ auth.actor_id)
    (long : last_error_too_long (failure_context config c error).error_message ≡ true)
    (cs : List (Completion J)) (o : OutboxRow J)
    (held : holds_lease auth.workspace_id c.message.id c.message.lease_token c.message.lease_owner
        c.now o
      ≡ true) where
  stops :
      (done : List (Completion J)) (rows : List (OutboxRow J)) (report : WorkerRunReport)
      → Distinct row_id rows
      → Distinct completed_id done
      → All (λ d. completed_id d ≢ c.message.id) done
      → All (IsSettleable config auth rows) done
      → row_at c.message.id rows ≡ some o
      → let p = process_leased config auth correlation (done ++ (c ∷ cs)) rows report in
        (p.1 ≡ err (internal "worker_store_failed" correlation))
        × ((k : Uuid) (r : OutboxRow J)
            → row_at k rows ≡ some r
            → row_at k p.0 ≡ some (row_after config k done r))
  unfolding process_leased row_after fetch_lease_for_update holds_lease
  stops [] rows report d apart others h found =
      let at =
        find-narrow row_id c.message.id (is_row auth.workspace_id c.message.id) rows o
          (λ r g. ground arith) found (ground (arith, held)) in
      let same =
        process_leased-refused config auth correlation c error cs rows o report d failed own
          (at, held) long in
      (ap (λ p. p.1) same, λ k r there. ap (λ p. row_at k p.0) same ∙ there)
  stops (b ∷ done) rows report d apart others h found =
      let (middle, settled) = apply-after config auth b rows d h.0 correlation report in
      let rest =
        stops done (after_one config auth b rows d h.0) middle
          (after_one-Distinct config auth b rows d h.0) apart.1 others.1
          (kept config auth b rows d h.0 done apart.0 h.1)
          (elsewhere config auth b rows d h.0 c.message.id o (λ e. others.0 (sym e)) found) in
      let same : process_leased config auth correlation ((b ∷ done) ++ (c ∷ cs)) rows report
          ≡ process_leased config auth correlation (done ++ (c ∷ cs))
              (after_one config auth b rows d h.0) middle =
        rw (settled, process_leased) refl in
      (
        ap (λ p. p.1) same ∙ rest.0,
        λ k r there.
            ap (λ p. row_at k p.0) same
            ∙ (rest.1 k _ (row_of_one config auth b rows d h.0 k r there)
                ∙ ap some (row_after-cons config k b done r apart.0)),
      )

  -- If in a batch the messages before a failed one are distinct, other than it and each settleable,
  -- and the text of the failure does not fit its column, then the batch ends there with an internal
  -- error: those before it are settled as the publisher has answered, and every other row stays,
  -- that of the failed message too, whose attempt is not counted although the worker holds its
  -- lease, and those of the messages after it.
  pub process_leased-stops :
      (done : List (Completion J)) (rows : List (OutboxRow J)) (report : WorkerRunReport)
      → Distinct row_id rows
      → Distinct completed_id done
      → All (λ d. completed_id d ≢ c.message.id) done
      → All (IsSettleable config auth rows) done
      → row_at c.message.id rows ≡ some o
      → let (after, result) =
          process_leased config auth correlation (done ++ (c ∷ cs)) rows report in
        (result ≡ err (internal "worker_store_failed" correlation))
        × (row_at c.message.id after ≡ some o)
        × ((k : Uuid) (r : OutboxRow J)
            → row_at k rows ≡ some r
            → row_at k after ≡ some (row_after config k done r))
        × ((k : Uuid) (r : OutboxRow J)
            → row_at k rows ≡ some r
            → All (λ d. completed_id d ≢ k) done
            → row_at k after ≡ some r)
  process_leased-stops done rows report d apart others h found =
      let (ends, at) = stops done rows report d apart others h found in
      (
        ends,
        at c.message.id o found ∙ ap some (row_after-absent config c.message.id done o others),
        at,
        λ k r there absent. at k r there ∙ ap some (row_after-absent config k done r absent),
      )
