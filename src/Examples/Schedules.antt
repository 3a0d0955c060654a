-- ===== src/Examples/Schedules.antt =====
-- A schedule against a cluster that is the list of its runs.
use kagents.Prelude.{
  ◌≡◌, ◌≢◌, refl, ◌<>◌, ◌+◌, String, none, some, List, [], ◌∷◌, ◌==◌, if◌then◌else◌, show_nat,
}
use kagents.Exec.{◌>>=◌, explain, attempt, pure}
use kagents.Result.{Result, ok, err, not_found, already_exists}
use kagents.Api.Resources.{AgentTeamRun, AgentTeamSchedule, ScheduledRunStatus}
use kagents.Schedule.{
  ScheduleClient, SchedulePass, has_run, create_run_for_window, gc_old_runs, keep_up,
  reconcile_schedule, requeue_delay, minute, scheduled_run_name, terminal_runs, record_run,
  is_run_terminal, refresh_run, refresh_run_phases,
}
use kagents.Schedule.History.{IsDistinct}
use kagents.Schedule.Upkeep.{history, IsCollection, gc_old_runs_exact, keep_up-IsDistinct}
use kagents.Schedule.Names.{unix, scheduled_run_name-record_run}
use kagents.Schedule.Windows.{create_run_for_window_idem}
use kagents.Examples.Data.{report_meta, report_team, lead, new_status}

abbrev run_named : String → String → AgentTeamRun
run_named name phase = record {
  meta = record report_meta { name = name };
  spec = record {
    template_ref = record { name = "report" };
    repository = none;
    workspace = none;
    auth = report_team.spec.auth;
    lead = lead;
    lifecycle = none;
  };
  status = record new_status { phase = phase };
}

abbrev find_run : List AgentTeamRun → String → Result AgentTeamRun
find_run [] name = err (not_found name)
find_run (r ∷ runs) name = if r.meta.name == name then ok r else find_run runs name

abbrev create :
    Result AgentTeamRun → List AgentTeamRun → AgentTeamRun → Result (Unit {0}) × List AgentTeamRun
create (ok old) runs r = (err (already_exists r.meta.name), runs)
create (err e) runs r = (ok tt, r ∷ runs)

abbrev remove : List AgentTeamRun → String → List AgentTeamRun
remove [] name = []
remove (r ∷ runs) name = if r.meta.name == name then remove runs name else r ∷ remove runs name

abbrev entry : String → String → ScheduledRunStatus
entry name phase = record { name = name; scheduled_at = 0; phase = phase }

-- Two minutes after the epoch, when a window is due.
abbrev hourly : AgentTeamSchedule
hourly = record {
  meta = record report_meta { name = "hourly" };
  spec = record {
    schedule = "0 * * * *";
    template_ref = record { name = "report" };
    auth = report_team.spec.auth;
    lead = lead;
    repository = none;
    workspace = none;
    lifecycle = none;
    history_limit = 1;
  };
  status = record {
    last_scheduled_at = none;
    next_scheduled_at = some minute;
    active_run = "hourly-2";
    runs =
        entry "hourly-0" "Completed" ∷ entry "hourly-1" "Failed" ∷ entry "hourly-2" "Running" ∷ [];
  };
}

abbrev client : ScheduleClient
client = record {
  World = List AgentTeamRun;
  get_schedule = λ w namespace name. ok hourly;
  get_run = λ w namespace name. find_run w name;
  create_run = λ w r. create (find_run w r.meta.name) w r;
  delete_run = λ w r. (ok tt, remove w r.meta.name);
  update_schedule_status = λ w s. (ok tt, w);
  set_owner = λ s r. ok r;
  parse_cron = λ text. ok (λ t. t + 3_600_000_000_000);
  show_time = λ t. "a window";
  now = minute + minute;
}

abbrev runs : List AgentTeamRun
runs =
    run_named "hourly-0" "Completed"
    ∷ run_named "hourly-1" "Failed"
    ∷ run_named "hourly-2" "Completed"
    ∷ []

abbrev start : SchedulePass client
start = record { world = runs; sched = hourly }

-- The oldest terminal run goes from the history and from the cluster; the new window's run comes.
reconcile_schedule_run : reconcile_schedule client runs "cowork" "hourly" ≡ (
  ok 3_600_000_000_000,
  (create_run_for_window client minute
      (record start { world = run_named "hourly-2" "Completed" ∷ [] })).1.world,
)
unfolding reconcile_schedule create_run_for_window keep_up gc_old_runs scheduled_run_name
    requeue_delay ◌>>=◌ ◌<>◌ explain show_nat refresh_run_phases attempt pure terminal_runs
    record_run is_run_terminal refresh_run
reconcile_schedule_run = refl

gc_old_runs_example : IsCollection client start (gc_old_runs client start)
gc_old_runs_example = gc_old_runs_exact client start

start-IsDistinct : IsDistinct (history client start)
start-IsDistinct = (refl, (refl, (refl, tt)))

keep_up_example : IsDistinct (history client (keep_up client minute (λ t. t + minute) start).1)
keep_up_example = keep_up-IsDistinct client minute (λ t. t + minute) start start-IsDistinct

start_created : (create_run_for_window client minute start).0 ≡ ok tt
unfolding create_run_for_window scheduled_run_name ◌<>◌ show_nat
start_created = refl

create_run_for_window_example :
    (create_run_for_window client minute (create_run_for_window client minute start).1).1.sched
    ≡ (create_run_for_window client minute start).1.sched
create_run_for_window_example = create_run_for_window_idem client minute start start_created

minutes_apart : unix minute ≢ unix (minute + minute)
minutes_apart h = cc

scheduled_run_name_example :
    (scheduled_run_name start.sched minute ≢ scheduled_run_name start.sched (minute + minute))
    × (has_run
          (scheduled_run_name start.sched (minute + minute))
          (record_run (scheduled_run_name start.sched minute) minute [])
        ≡ has_run (scheduled_run_name start.sched (minute + minute)) [])
scheduled_run_name_example =
    scheduled_run_name-record_run start.sched minute (minute + minute) [] minutes_apart
