-- ===== src/Worker/Service/Steps.antt =====
-- The worker changes the outbox by its own steps alone, and no table beside it but two.
use dandori.Base.{
  ◌<◌, ◌≡◌, refl, subst, sym, ◌∙◌, ok, err, List, [], ◌∷◌, Result-cases, inl, inr, arith, Result,
  ◌-◌,
}
use dandori.Domain.Ids.{Uuid, Instant}
use dandori.Domain.Auth.{AuthContext}
use dandori.Store.Schema.{OutboxRow, IdempotencyRow, PartitionLease, Db}
use dandori.Store.Outbox.History.{Step}
use dandori.Store.Outbox.History.Invariant.{IsWellFormed}
use dandori.Store.Outbox.History.Runs.{Steps, join, Steps-IsWellFormed, IsWorkers}
use dandori.App.Error.{AppServiceError}
use dandori.Worker.Config.{OutboxWorkerConfig, WorkerRunReport, empty_report}
use dandori.Worker.Service.{
  Completion, TenantRun, WorkerRun, failure_context, apply_error, apply_publish_outcome,
  process_leased, seconds, hours, clean_up, finish_cycle, run_tenant_cycle, run_tenants,
  acquire_workspaces, run_once,
}

-- Beside the outbox, at most the idempotency records and the partition leases have changed.
pub record IsFramed {J : Type 0} (db after : Db J) : Type 0 where
  pub workspaces : after.workspaces ≡ db.workspaces
  pub workflow_versions : after.workflow_versions ≡ db.workflow_versions
  pub projects : after.projects ≡ db.projects
  pub milestones : after.milestones ≡ db.milestones
  pub issues : after.issues ≡ db.issues
  pub activities : after.activities ≡ db.activities

pub IsFramed-refl : {J : Type 0} (db : Db J) → IsFramed db db
IsFramed-refl db = record {
  workspaces = refl;
  workflow_versions = refl;
  projects = refl;
  milestones = refl;
  issues = refl;
  activities = refl;
}

pub IsFramed-trans : {J : Type 0} {a b c : Db J} → IsFramed a b → IsFramed b c → IsFramed a c
IsFramed-trans f g = record {
  workspaces = g.workspaces ∙ f.workspaces;
  workflow_versions = g.workflow_versions ∙ f.workflow_versions;
  projects = g.projects ∙ f.projects;
  milestones = g.milestones ∙ f.milestones;
  issues = g.issues ∙ f.issues;
  activities = g.activities ∙ f.activities;
}

pub IsFramed-leases :
    {J : Type 0} (db : Db J) (leases : List PartitionLease)
    → IsFramed db (record db { leases = leases })
IsFramed-leases db leases = record {
  workspaces = refl;
  workflow_versions = refl;
  projects = refl;
  milestones = refl;
  issues = refl;
  activities = refl;
}

IsFramed-tables :
    {J : Type 0} (db : Db J) (rows : List (OutboxRow J)) (records : List (IdempotencyRow J))
    → IsFramed db (record db { outbox = rows; idempotency = records })
IsFramed-tables db rows records = record {
  workspaces = refl;
  workflow_versions = refl;
  projects = refl;
  milestones = refl;
  issues = refl;
  activities = refl;
}

module _ {J : Type 0} (config : OutboxWorkerConfig) where
  open config use {max_attempts, worker_instance_id}

  -- The steps that this worker takes.
  abbrev pub Worked : List (OutboxRow J) → List (OutboxRow J) → Type 0
  Worked = Steps max_attempts (IsWorkers worker_instance_id)

  one :
      {rows after : List (OutboxRow J)} (step : Step max_attempts rows after)
      → IsWorkers worker_instance_id rows after step
      → Worked rows after
  one step own = Steps.step_then step own Steps.no_step

  module _ (auth : AuthContext) (own : auth.actor_id ≡ worker_instance_id)
      (correlation : Uuid) where
    apply-Worked :
        (c : Completion J) (rows settled : List (OutboxRow J)) (before after : WorkerRunReport)
        → apply_publish_outcome config auth correlation c rows before ≡ ok (settled, after)
        → Worked rows settled
    unfolding apply_publish_outcome apply_error failure_context
    apply-Worked c rows settled before after h = elim (Result-cases c.outcome) [
      | inl (done, e) ↦
          one
            (Step.marked_delivered auth c.message.id c.message.lease_token c.message.lease_owner
              c.now rows settled (ground arith))
            own
      | inr (error, e) ↦
          one
            (Step.marked_failed auth c.message.id (failure_context config c error) rows settled refl
              (ground arith))
            own
    ]

    next :
        (c : Completion J) (cs : List (Completion J)) (rows settled : List (OutboxRow J))
        (before after : WorkerRunReport)
        → apply_publish_outcome config auth correlation c rows before ≡ ok (settled, after)
        → process_leased config auth correlation (c ∷ cs) rows before
          ≡ process_leased config auth correlation cs settled after
    unfolding process_leased
    next c cs rows settled before after x = ground arith

    stopped :
        (c : Completion J) (cs : List (Completion J)) (rows : List (OutboxRow J))
        (before : WorkerRunReport) (e : AppServiceError)
        → apply_publish_outcome config auth correlation c rows before ≡ err e
        → process_leased config auth correlation (c ∷ cs) rows before ≡ (rows, err e)
    unfolding process_leased
    stopped c cs rows before e x = ground arith

    process_leased-Worked :
        (cs : List (Completion J)) (rows : List (OutboxRow J)) (report : WorkerRunReport)
        → Worked rows (process_leased config auth correlation cs rows report).0
    unfolding process_leased
    process_leased-Worked [] rows report = Steps.no_step
    process_leased-Worked (c ∷ cs) rows report =
        elim (Result-cases (apply_publish_outcome config auth correlation c rows report)) [
          | inr (e, x) ↦
              subst (λ p. Worked rows p.0) (sym (stopped c cs rows report e x)) Steps.no_step
          | inl ((settled, counted), x) ↦
              subst (λ p. Worked rows p.0) (sym (next c cs rows settled report counted x))
                (join (apply-Worked c rows settled report counted x)
                  (process_leased-Worked cs settled counted))
        ]

  finish-Worked :
      (auth : AuthContext) (at : Instant) (db : Db J)
      (result : Result WorkerRunReport AppServiceError)
      → auth.actor_id ≡ worker_instance_id
      → Worked db.outbox (finish_cycle config auth at db result).0.outbox
        × IsFramed db (finish_cycle config auth at db result).0
  unfolding finish_cycle clean_up
  finish-Worked auth at db (err e) own = (Steps.no_step, IsFramed-refl db)
  finish-Worked auth at db (ok report) own = (
    one
        (Step.cleaned auth (at - hours config.delivered_retention_hours)
          (at - hours config.dead_letter_retention_hours) db.outbox)
        own,
    IsFramed-tables db _ _,
  )

  cycle-Worked :
      (auth : AuthContext) (run : TenantRun J) (db : Db J)
      → auth.actor_id ≡ worker_instance_id
      → Worked db.outbox (run_tenant_cycle config auth run db).0.outbox
        × IsFramed db (run_tenant_cycle config auth run db).0
  unfolding run_tenant_cycle
  cycle-Worked auth run db own =
      let (finished, framed) = finish-Worked auth run.cleaned_at _ _ own in
      (
        join
            (one
              (Step.leased_batch run.locked auth run.now (seconds config.lease_seconds)
                config.batch_size run.token db.outbox)
              own)
            (join (process_leased-Worked auth own run.correlation _ _ _) finished),
        IsFramed-trans (IsFramed-tables db _ db.idempotency) framed,
      )

  run_tenants-Worked :
      (runs : Uuid → TenantRun J) (assigned : List Uuid) (db : Db J) (report : WorkerRunReport)
      → Worked db.outbox (run_tenants config runs assigned db report).0.outbox
        × IsFramed db (run_tenants config runs assigned db report).0
  unfolding run_tenants
  run_tenants-Worked runs [] db report = (Steps.no_step, IsFramed-refl db)
  run_tenants-Worked runs (ws ∷ rest) db report =
      let (first, framed) = cycle-Worked _ (runs ws) db refl in
      let (later, framed_2) = run_tenants-Worked runs rest _ _ in
      (join first later, IsFramed-trans framed framed_2)

  acquire-IsFramed :
      (run : WorkerRun J) (remembered : List Uuid) (db after : Db J) (assigned kept : List Uuid)
      → acquire_workspaces config run remembered db ≡ ok (after, assigned, kept)
      → (after.outbox ≡ db.outbox) × IsFramed db after
  unfolding acquire_workspaces
  acquire-IsFramed run remembered db after assigned kept h = (
    ground arith,
    record {
      workspaces = ground arith;
      workflow_versions = ground arith;
      projects = ground arith;
      milestones = ground arith;
      issues = ground arith;
      activities = ground arith;
    },
  )

  pub run_once_lem :
      (run : WorkerRun J) (remembered : List Uuid) (db : Db J)
      → Worked db.outbox (run_once config run remembered db).0.outbox
        × IsFramed db (run_once config run remembered db).0
  unfolding run_once
  run_once_lem run remembered db =
      elim (Result-cases (acquire_workspaces config run remembered db)) [
        | inr (e, x) ↦ rw (x, run_once) (Steps.no_step, IsFramed-refl db)
        | inl ((acquired, assigned, kept), x) ↦
            let (same, framed) = acquire-IsFramed run remembered db acquired assigned kept x in
            let (steps, framed_2) = run_tenants-Worked run.runs assigned acquired empty_report in
            rw (x, run_once)
              (
                subst
                    (λ rows.
                      Worked rows
                        (run_tenants config run.runs assigned acquired empty_report).0.outbox)
                    same steps,
                IsFramed-trans framed framed_2,
              )
      ]

  -- Whatever the publisher answers, in whatever order the messages end, and whether or not the
  -- store refuses the partitions or a cycle fails in its middle: a run changes the outbox only by
  -- steps of this worker, each in its own name, enqueues nothing, and changes no other table than
  -- the idempotency records and the partition leases. If the limit of attempts is at least one
  -- and the outbox is well-formed before, it is so afterwards.
  pub run_once-Worked :
      (run : WorkerRun J) (remembered : List Uuid) (db : Db J)
      → 0 < max_attempts
      → IsWellFormed max_attempts db.outbox
      → let after = (run_once config run remembered db).0 in
        Worked db.outbox after.outbox × IsFramed db after × IsWellFormed max_attempts after.outbox
  run_once-Worked run remembered db positive well =
      let (steps, framed) = run_once_lem run remembered db in
      (steps, framed, Steps-IsWellFormed positive steps well)
