-- ===== src/Schedule/Records.antt =====
-- What a pass of the schedule reconciler computes without the cluster: delays, names and the history.
use kagents.Prelude.{
  ℕ, zero, suc, ◌-◌, ◌/◌, String, Bool, false, List, [], ◌∷◌, ◌++◌, ◌==◌, ◌<>◌, ◌||◌, ltb, show_nat,
  if◌then◌else◌,
}
use kagents.Result.{Result, ok, err}
use kagents.Api.Status.{Time}
use kagents.Api.Resources.{AgentTeamRun, AgentTeamSchedule, ScheduledRunStatus}

pub record ScheduleClient : Type 1 where
  pub World : Type 0
  pub get_schedule : World → String → String → Result AgentTeamSchedule
  pub get_run : World → String → String → Result AgentTeamRun
  pub create_run : World → AgentTeamRun → Result (Unit {0}) × World
  pub delete_run : World → AgentTeamRun → Result (Unit {0}) × World
  -- r.Status().Update of a schedule
  pub update_schedule_status : World → AgentTeamSchedule → Result (Unit {0}) × World
  -- ctrl.SetControllerReference(schedule, run)
  pub set_owner : AgentTeamSchedule → AgentTeamRun → Result AgentTeamRun
  -- the cron parser: for a time, the next one that an expression names
  pub parse_cron : String → Result (Time → Time)
  -- windowAt.Format(time.RFC3339)
  pub show_time : Time → String
  pub now : Time

-- scheduleRequeueAfterFloor
abbrev pub minute : ℕ
minute = 60_000_000_000

unfoldable pub requeue_delay : Time → Time → ℕ
requeue_delay next_at now = let d = next_at - now in if ltb d minute then minute else d

unfoldable pub is_run_terminal : String → Bool
is_run_terminal phase =
    phase == "Completed" || phase == "Failed" || phase == "TimedOut" || phase == "BudgetExceeded"

unfoldable pub scheduled_run_name : AgentTeamSchedule → Time → String
scheduled_run_name sched window_at = sched.meta.name <> "-" <> show_nat (window_at / 1_000_000_000)

abbrev pub has_run : String → List ScheduledRunStatus → Bool
has_run name [] = false
has_run name (rs ∷ runs) = rs.name == name || has_run name runs

-- The history with the run of a window, which is not appended twice.
unfoldable pub record_run : String → Time → List ScheduledRunStatus → List ScheduledRunStatus
record_run name window_at runs =
    if has_run name runs
    then runs
    else runs ++ record { name = name; scheduled_at = window_at; phase = "Pending" } ∷ []

-- A phase is copied where the run can be read.
unfoldable pub refresh_run : ScheduledRunStatus → Result AgentTeamRun → ScheduledRunStatus
refresh_run rs (ok run) = record rs { phase = run.status.phase }
refresh_run rs (err e) = rs

-- The first entry of the active run decides whether it is still active.
unfoldable pub active_after : String → List ScheduledRunStatus → String
active_after active [] = active
active_after active (rs ∷ runs) =
    if rs.name == active
    then (if is_run_terminal rs.phase then "" else active)
    else active_after active runs

unfoldable pub terminal_runs : List ScheduledRunStatus → List ScheduledRunStatus
terminal_runs [] = []
terminal_runs (rs ∷ runs) =
    if is_run_terminal rs.phase then rs ∷ terminal_runs runs else terminal_runs runs

abbrev pub take_runs : ℕ → List ScheduledRunStatus → List ScheduledRunStatus
take_runs zero runs = []
take_runs (suc n) [] = []
take_runs (suc n) (rs ∷ runs) = rs ∷ take_runs n runs

-- The history without its first `excess` terminal entries.
unfoldable pub compact : ℕ → List ScheduledRunStatus → List ScheduledRunStatus
compact zero runs = runs
compact (suc excess) [] = []
compact (suc excess) (rs ∷ runs) =
    let dropped = compact excess runs in
    let kept = compact (suc excess) runs in if is_run_terminal rs.phase then dropped else rs ∷ kept
