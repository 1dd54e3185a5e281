-- ===== src/Monitoring/Plans.antt =====
-- The executions that are made of due plans (src/monitoring/plans.js): `materializeDueMonitorExecutions` and
-- `claimMonitorExecution`. The table of plans is in the order of its ids; the clock of a plan's zone is a
-- part of the plan.
pub mod Due
use one_gl.Prelude.{
  ℕ, zero, suc, ◌+◌, Bool, true, false, ◌&&◌, ◌||◌, Option, none, some, List, [], ◌∷◌, ◌++◌,
  if◌then◌else◌, ltb, leb, ◌==◌, take, select, sort_by, larger,
}
use one_gl.Monitoring.Schedule.{Plan, next_scheduled_at}

pub record MonitorPlan : Type 0 where
  pub id : ℕ
  pub enabled : Bool
  pub schedule : Plan
  pub wall : ℕ → ℕ
  pub next_run_at : ℕ
  pub last_scheduled_for : Option ℕ

pub data ExecutionStatus : Type 0 where
  pending processing finished : ExecutionStatus

pub record Execution : Type 0 where
  pub plan_id : ℕ
  pub scheduled_for : ℕ
  pub status : ExecutionStatus
  pub attempts : ℕ
  pub updated_at : ℕ

pub record PlanTables : Type 0 where
  pub plans : List MonitorPlan
  pub executions : List Execution

abbrev pub is_due : ℕ → MonitorPlan → Bool
is_due now p = p.enabled && leb p.next_run_at now

-- `ORDER BY next_run_at, id LIMIT`
unfoldable pub due_plans : ℕ → ℕ → List MonitorPlan → List MonitorPlan
unfolding select sort_by
due_plans now limit plans =
    take limit (sort_by (larger (λ p. p.next_run_at)) (select (is_due now) plans))

unfoldable pub has_execution : ℕ → ℕ → List Execution → Bool
has_execution plan_id scheduled_for [] = false
has_execution plan_id scheduled_for (x ∷ xs) =
    (x.plan_id == plan_id && x.scheduled_for == scheduled_for)
    || has_execution plan_id scheduled_for xs

-- `ON CONFLICT (plan_id, scheduled_for) DO NOTHING`
unfoldable pub insert_execution : ℕ → MonitorPlan → List Execution → List Execution
unfolding has_execution
insert_execution now p xs =
    if has_execution p.id p.next_run_at xs
    then xs
    else record {
      plan_id = p.id;
      scheduled_for = p.next_run_at;
      status = pending;
      attempts = 0;
      updated_at = now;
    }
      ∷ xs

unfoldable pub advance_plan : ℕ → MonitorPlan → MonitorPlan → MonitorPlan
unfolding next_scheduled_at
advance_plan now p row =
    if row.id == p.id
    then record row {
      next_run_at = next_scheduled_at p.wall p.schedule now;
      last_scheduled_for = some p.next_run_at;
    }
    else row

unfoldable pub advance_all : ℕ → MonitorPlan → List MonitorPlan → List MonitorPlan
unfolding advance_plan
advance_all now p [] = []
advance_all now p (row ∷ rows) = advance_plan now p row ∷ advance_all now p rows

unfoldable pub materialize_each : ℕ → List MonitorPlan → PlanTables → PlanTables
unfolding insert_execution advance_all
materialize_each now [] w = w
materialize_each now (p ∷ ps) w =
    materialize_each now ps (record {
      plans = advance_all now p w.plans;
      executions = insert_execution now p w.executions;
    })

unfoldable pub materialize_due_monitor_executions : ℕ → ℕ → PlanTables → PlanTables
unfolding due_plans materialize_each
materialize_due_monitor_executions now limit w =
    materialize_each now (due_plans now limit w.plans) w
