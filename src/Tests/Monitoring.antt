-- ===== src/Tests/Monitoring.antt =====
-- A plan for Mondays at half past nine, eight hours ahead of UTC.
use one_gl.Prelude.{ℕ, ◌≡◌, refl, true, none, [], ◌∷◌, arith}
use one_gl.Monitoring.Schedule.{Plan, weekly, next_scheduled_at}
use one_gl.Monitoring.Schedule.Converges.{fixed_zone}
use one_gl.Monitoring.Schedule.First.{IsPlan, IsFirstRun, next_scheduled_at-IsFirstRun}
use one_gl.Monitoring.Plans.{MonitorPlan, PlanTables}

abbrev mondays : Plan
mondays = record { cadence = weekly 1; local_hour = 9; local_minute = 30 }

abbrev ahead : ℕ
ahead = 28800000

mondays-IsPlan : IsPlan ahead mondays
mondays-IsPlan = record {
  hour = omega arith;
  minute = omega arith;
  cadence = (omega arith, omega arith);
  zone = omega arith;
  zone_whole = refl;
}

-- Monday, 5 January 1970, 09:30 at the clock of the zone.
first_monday : next_scheduled_at (fixed_zone ahead) mondays 100000000 ≡ 351000000
unfolding next_scheduled_at
first_monday = refl

next_scheduled_at-IsFirstRun_example :
    IsFirstRun ahead mondays 100000000 (next_scheduled_at (fixed_zone ahead) mondays 100000000)
next_scheduled_at-IsFirstRun_example =
    next_scheduled_at-IsFirstRun ahead mondays mondays-IsPlan 100000000 (omega arith)

abbrev monitor_plan : MonitorPlan
monitor_plan = record {
  id = 1;
  enabled = true;
  schedule = mondays;
  wall = fixed_zone ahead;
  next_run_at = 351000000;
  last_scheduled_for = none;
}

abbrev plan_tables : PlanTables
plan_tables = record { plans = monitor_plan ∷ []; executions = [] }
