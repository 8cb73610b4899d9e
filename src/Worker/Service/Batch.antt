-- ===== src/Worker/Service/Batch.antt =====
-- How a batch ends: process_leased of crates/dandori-app-services/src/worker/service.rs over what the
-- lease has returned.
use dandori.Base.{
  ℕ, ◌+◌, ◌≡◌, ◌≢◌, refl, subst, sym, ap, ◌∙◌, true, false, some, List, [], ◌∷◌, length, ◌==◌,
  ==_iff, ◌||◌, leb, if◌then◌else◌, All, Result, Result-cases, Bool-cases, inl, inr, ok, err, arith,
}
use dandori.Domain.Ids.{Uuid}
use dandori.Domain.Auth.{AuthContext}
use dandori.Store.Schema.{OutboxRow}
use dandori.Store.Table.{update_where}
use dandori.Store.Table.Laws.{Distinct, Distinct-update_where, find-holds}
use dandori.Store.Table.Keys.{find-update_where, find-narrow}
use dandori.Store.Outbox.Defs.{row_id, row_at}
use dandori.Store.Outbox.Mark.{
  is_row, holds_lease, fetch_lease_for_update, last_error_too_long, delivered_row, failed_row,
  is_terminal,
}
use dandori.Store.Outbox.Mark.Laws.{IsHeld, mark_outbox_delivered-eq-ok, mark_outbox_failed-eq-ok}
use dandori.App.Error.{AppServiceError}
use dandori.Worker.Config.{OutboxWorkerConfig, WorkerRunReport}
use dandori.Worker.Publish.{PublishError}
use dandori.Worker.Service.{
  Completion, classify, failure_context, count_delivered, count_failed, apply_error,
  apply_publish_outcome, process_leased,
}
use dandori.Worker.Service.Laws.{Counts, process_leased-Counts}

abbrev pub completed_id : {J : Type 0} → Completion J → Uuid
completed_id c = c.message.id

module _ {J : Type 0} (config : OutboxWorkerConfig) where
  -- What the end of a publication makes of a row: it is delivered or, after so many attempts,
  -- failed.
  unfoldable pub settle : Completion J → ℕ → OutboxRow J → OutboxRow J
  settle c attempts o = elim c.outcome [
    | ok done ↦ delivered_row c.now o
    | err error ↦ failed_row (failure_context config c error) (attempts + 1) o
  ]

  -- What a batch makes of the row with an id.
  unfoldable pub row_after : Uuid → List (Completion J) → OutboxRow J → OutboxRow J
  unfolding settle
  row_after k [] o = o
  row_after k (c ∷ cs) o =
      let rest = row_after k cs o in if c.message.id == k then settle c o.attempts o else rest

  settle-id : (c : Completion J) (n : ℕ) (o : OutboxRow J) → row_id (settle c n o) ≡ row_id o
  unfolding settle delivered_row failed_row
  settle-id c n o = elim (Result-cases c.outcome) [
    | inl (done, e) ↦ rw e refl
    | inr (error, e) ↦ rw e refl
  ]

  pub row_after-absent :
      (k : Uuid) (cs : List (Completion J)) (o : OutboxRow J)
      → All (λ c. completed_id c ≢ k) cs
      → row_after k cs o ≡ o
  unfolding row_after
  row_after-absent k [] o h = refl
  row_after-absent k (c ∷ cs) o h = ground (arith, h.0, row_after-absent k cs o h.1)

  pub row_after-cons :
      (k : Uuid) (c : Completion J) (cs : List (Completion J)) (o : OutboxRow J)
      → All (λ d. completed_id d ≢ completed_id c) cs
      → row_after k cs (if c.message.id == k then settle c o.attempts o else o)
        ≡ row_after k (c ∷ cs) o
  unfolding row_after
  row_after-cons k c cs o h = elim (Bool-cases (c.message.id == k)) [
    | inr apart ↦ rw apart refl
    | inl same ↦ rw same (
        row_after-absent k cs (settle c o.attempts o)
          (subst (λ j. All (λ d. completed_id d ≢ j) cs) ((==_iff c.message.id k).0 same) h))
  ]

  module _ (auth : AuthContext) where
    -- The row of the message stands in the table, leased to the worker under the token of the
    -- message beyond the time at which it is marked, and the text of a failure fits its column.
    pub record IsSettleable (rows : List (OutboxRow J)) (c : Completion J) : Type 0 where
      pub own : c.message.lease_owner ≡ auth.actor_id
      pub row : OutboxRow J
      pub found : row_at c.message.id rows ≡ some row
      pub held :
          holds_lease auth.workspace_id c.message.id c.message.lease_token c.message.lease_owner
            c.now row
          ≡ true
      pub fits :
          (error : PublishError)
          → c.outcome ≡ err error
          → last_error_too_long (failure_context config c error).error_message ≡ false

    module _ (c : Completion J) (rows : List (OutboxRow J)) (distinct : Distinct row_id rows)
        (s : IsSettleable rows c) where
      abbrev pub after_one : List (OutboxRow J)
      after_one =
          update_where (is_row auth.workspace_id c.message.id) (settle c s.row.attempts) rows

      is_held :
          IsHeld auth.workspace_id c.message.id c.message.lease_token c.message.lease_owner c.now
            rows s.row
      unfolding fetch_lease_for_update holds_lease
      is_held = (
        find-narrow row_id c.message.id (is_row auth.workspace_id c.message.id) rows s.row
            (λ o h. ground arith) s.found (ground (arith, s.held)),
        s.held,
      )

      pub after_one-Distinct : Distinct row_id after_one
      after_one-Distinct =
          Distinct-update_where row_id (settle c s.row.attempts) (settle-id c s.row.attempts)
            (is_row auth.workspace_id c.message.id) rows distinct

      pub apply-after :
          (correlation : Uuid) (before : WorkerRunReport)
          → (after : WorkerRunReport) × (apply_publish_outcome config auth correlation c rows before
              ≡ ok (after_one, after))
      unfolding apply_publish_outcome apply_error settle failure_context
      apply-after correlation before = elim (Result-cases c.outcome) [
        | inl (done, e) ↦
            let marked =
              (mark_outbox_delivered-eq-ok auth c.message.id c.message.lease_token
                  c.message.lease_owner c.now rows distinct
                  (update_where (is_row auth.workspace_id c.message.id) (delivered_row c.now)
                    rows)).1
                (s.own, (s.row, is_held), refl) in
            (count_delivered before, rw (e, marked) refl)
        | inr (error, e) ↦
            let marked =
              (mark_outbox_failed-eq-ok auth c.message.id (failure_context config c error) rows
                  distinct
                  (update_where (is_row auth.workspace_id c.message.id)
                    (failed_row (failure_context config c error) (s.row.attempts + 1)) rows)).1
                (s.own, s.fits error e, (s.row, (is_held, refl))) in
            (
              count_failed
                  (is_terminal (classify error.kind)
                    || leb config.max_attempts (c.message.attempts + 1))
                  before,
              rw (e, marked) refl,
            )
      ]

      -- The rows of other messages stay.
      pub elsewhere :
          (k : Uuid) (o : OutboxRow J)
          → k ≢ c.message.id
          → row_at k rows ≡ some o
          → row_at k after_one ≡ some o
      elsewhere k o apart at =
          find-update_where row_id (is_row auth.workspace_id c.message.id) (settle c s.row.attempts)
            k rows o (settle-id c s.row.attempts) at
          ∙ ground (arith, find-holds (λ (r : OutboxRow J). row_id r == k) rows at)

      pub row_of_one :
          (k : Uuid) (o : OutboxRow J)
          → row_at k rows ≡ some o
          → row_at k after_one ≡ some (if c.message.id == k then settle c o.attempts o else o)
      unfolding holds_lease
      row_of_one k o at = elim (Bool-cases (c.message.id == k)) [
        | inr apart ↦ rw apart (elsewhere k o (ground arith) at)
        | inl same ↦
            let e = (==_iff c.message.id k).0 same in
            let own : s.row ≡ o = ground (arith, sym s.found ∙ (ap (λ j. row_at j rows) e ∙ at)) in
            rw same (
              find-update_where row_id (is_row auth.workspace_id c.message.id)
                (settle c s.row.attempts) k rows o (settle-id c s.row.attempts) at
              ∙ ground (arith, s.held, own))
      ]

      pub kept :
          (cs : List (Completion J))
          → All (λ d. completed_id d ≢ c.message.id) cs
          → All (IsSettleable rows) cs
          → All (IsSettleable after_one) cs
      kept [] apart h = tt
      kept (d ∷ cs) apart h = (
        record {
          own = h.0.own;
          row = h.0.row;
          found = elsewhere d.message.id h.0.row apart.0 h.0.found;
          held = h.0.held;
          fits = h.0.fits;
        },
        kept cs apart.1 h.1,
      )

    -- A batch that has been settled as a whole.
    pub record IsSettled (cs : List (Completion J)) (rows : List (OutboxRow J))
        (before : WorkerRunReport) (p : List (OutboxRow J) × Result WorkerRunReport AppServiceError)
        : Type 0 where
      pub after : WorkerRunReport
      pub complete : p.1 ≡ ok after
      pub counts : Counts (length cs) before after
      pub rows_after :
          (k : Uuid) (o : OutboxRow J)
          → row_at k rows ≡ some o
          → row_at k p.0 ≡ some (row_after k cs o)

    -- If the messages of a batch are distinct, and each can be settled, then the whole batch is:
    -- nothing fails, each message is counted once, its row is delivered or failed as the publisher
    -- has answered, and all other rows stay.
    pub process_leased-IsSettled :
        (correlation : Uuid) (cs : List (Completion J)) (rows : List (OutboxRow J))
        (before : WorkerRunReport)
        → Distinct row_id rows
        → Distinct completed_id cs
        → All (IsSettleable rows) cs
        → IsSettled cs rows before (process_leased config auth correlation cs rows before)
    unfolding process_leased row_after
    process_leased-IsSettled correlation [] rows before d apart h = record {
      after = before;
      complete = refl;
      counts = process_leased-Counts config auth correlation [] rows before before refl;
      rows_after = λ k o at. at;
    }
    process_leased-IsSettled correlation (c ∷ cs) rows before d apart h =
        let (middle, done) = apply-after c rows d h.0 correlation before in
        let rest =
          process_leased-IsSettled correlation cs (after_one c rows d h.0) middle
            (after_one-Distinct c rows d h.0) apart.1 (kept c rows d h.0 cs apart.0 h.1) in
        let same : process_leased config auth correlation (c ∷ cs) rows before
            ≡ process_leased config auth correlation cs (after_one c rows d h.0) middle =
          rw (done, process_leased) refl in
        let complete = ap (λ p. p.1) same ∙ rest.complete in
        record {
          after = rest.after;
          complete = complete;
          counts =
              process_leased-Counts config auth correlation (c ∷ cs) rows before rest.after
                complete;
          rows_after = λ k o at.
              ap (λ p. row_at k p.0) same
              ∙ (rest.rows_after k _ (row_of_one c rows d h.0 k o at)
                  ∙ ap some (row_after-cons k c cs o apart.0));
        }
