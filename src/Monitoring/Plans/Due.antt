-- ===== src/Monitoring/Plans/Due.antt =====
-- Each due plan is made one execution of, and nothing is made up for (src/monitoring/plans.js).
use one_gl.Prelude.{
  ℕ, ◌≤◌, ◌<◌, ◌≡◌, refl, subst, inl, inr, true, false, ◌&&◌, List, [], ◌∷◌, if◌then◌else◌, ◌==◌,
  arith, Bool-cases, sum_by,
}
use one_gl.Monitoring.Schedule.{next_scheduled_at}
use one_gl.Monitoring.Schedule.Converges.{fixed_zone}
use one_gl.Monitoring.Schedule.First.{IsPlan}
use one_gl.Monitoring.Plans.{
  MonitorPlan, Execution, PlanTables, is_due, due_plans, has_execution, insert_execution,
  materialize_each, materialize_due_monitor_executions,
}

-- How many executions a plan has for a time.
unfoldable pub executions_of : ℕ → ℕ → List Execution → ℕ
executions_of plan_id scheduled_for =
    sum_by (λ x. if x.plan_id == plan_id && x.scheduled_for == scheduled_for then 1 else 0)

abbrev pub AtMostOne : List Execution → Type 0
AtMostOne xs = (plan_id scheduled_for : ℕ) → executions_of plan_id scheduled_for xs ≤ 1

has_execution-executions_of :
    (plan_id scheduled_for : ℕ) (xs : List Execution)
    → has_execution plan_id scheduled_for xs ≡ false
    → executions_of plan_id scheduled_for xs ≡ 0
unfolding has_execution executions_of
has_execution-executions_of plan_id scheduled_for [] h = refl
has_execution-executions_of plan_id scheduled_for (x ∷ xs) h =
    ground (arith, h, has_execution-executions_of plan_id scheduled_for xs)

insert_execution-AtMostOne :
    (now : ℕ) (p : MonitorPlan) (xs : List Execution)
    → AtMostOne xs
    → AtMostOne (insert_execution now p xs)
unfolding insert_execution executions_of
insert_execution-AtMostOne now p xs once plan_id scheduled_for =
    elim (Bool-cases (has_execution p.id p.next_run_at xs)) [
      | inl h ↦ rw h (once plan_id scheduled_for)
      | inr h ↦
          let none_yet = has_execution-executions_of p.id p.next_run_at xs h in
          let same : p.id ≡ plan_id
              → p.next_run_at ≡ scheduled_for
              → executions_of plan_id scheduled_for xs ≡ 0 =
            λ e f.
              subst (λ i. executions_of i scheduled_for xs ≡ 0) e
                (subst (λ j. executions_of p.id j xs ≡ 0) f none_yet) in
          let most : executions_of plan_id scheduled_for xs ≤ 1 = once plan_id scheduled_for in
          rw h (grind (arith, same, most))
    ]

materialize_each-AtMostOne :
    (now : ℕ) (ps : List MonitorPlan) (w : PlanTables)
    → AtMostOne w.executions
    → AtMostOne (materialize_each now ps w).executions
unfolding materialize_each
materialize_each-AtMostOne now [] w once = once
materialize_each-AtMostOne now (p ∷ ps) w once =
    materialize_each-AtMostOne now ps _ (insert_execution-AtMostOne now p w.executions once)

-- If no plan has more than one execution for a time, none has after due plans were made executions of.
materialize_due_monitor_executions-AtMostOne :
    (now limit : ℕ) (w : PlanTables)
    → AtMostOne w.executions
    → AtMostOne (materialize_due_monitor_executions now limit w).executions
unfolding materialize_due_monitor_executions
materialize_due_monitor_executions-AtMostOne now limit w once =
    materialize_each-AtMostOne now (due_plans now limit w.plans) w once

-- How many of the plans to come have an id.
abbrev to_come : ℕ → List MonitorPlan → ℕ
to_come id = sum_by (λ p. if p.id == id then 1 else 0)

-- The plan is not due, or is still to come.
abbrev Handled : ℕ → List MonitorPlan → MonitorPlan → Type 0
Handled now ps row = is_due now row ≡ true → 0 < to_come row.id ps

abbrev IsAhead : ℕ → MonitorPlan → Type 0
IsAhead now p = now < next_scheduled_at p.wall p.schedule now

-- The plan's schedule is valid, in a zone that is ahead of UTC by a fixed time.
pub record IsFixed (p : MonitorPlan) : Type 0 where
  pub ahead : ℕ
  pub zone : p.wall ≡ fixed_zone ahead
  pub valid : IsPlan ahead p.schedule
