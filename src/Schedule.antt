-- ===== src/Schedule.antt =====
-- internal/controller/agentteamschedule_controller.go: a schedule creates one run for each window of
-- its cron expression. The API client, the scheme and the cron parser are the parameters of the record
-- `ScheduleClient`. A delay and a time are nanoseconds.
mod Records
pub mod History
pub mod Collected
pub mod Upkeep
pub mod Windows
pub mod Names
use kagents.Prelude.{
  ℕ, ◌-◌, ◌/◌, String, Option, none, some, List, [], ◌∷◌, ◌==◌, ◌<>◌, ◌||◌, ltb, leb, length,
  if◌then◌else◌,
}
use kagents.Result.{Result, ok, err, wrap, is_already_exists, is_not_found}
use kagents.Exec.{
  Exec, Found, found, missing, found_or_missing, attempt, explain, pure, raise, ◌>>=◌, ◌>>◌,
}
use kagents.Api.Status.{Time}
use kagents.Api.Resources.{AgentTeamRun, AgentTeamSchedule, ScheduledRunStatus}
use kagents.Run.{zero_team}
unfoldable pub use Records.*

module _ (client : ScheduleClient) where
  open client use {World, now}

  pub record SchedulePass : Type 0 where
    pub world : World
    pub sched : AgentTeamSchedule

  abbrev pub ScheduleAction : Type 0 → Type 0
  ScheduleAction A = Exec SchedulePass A

  abbrev with_runs : List ScheduledRunStatus → SchedulePass → SchedulePass
  with_runs runs s = record s {
    sched = record s.sched { status = record s.sched.status { runs = runs } };
  }

  abbrev run_of : AgentTeamSchedule → Time → AgentTeamRun
  run_of sched window_at = record {
    meta = record {
      name = scheduled_run_name sched window_at;
      namespace = sched.meta.namespace;
      labels = ("kagents.dev/schedule", sched.meta.name) ∷ [];
      annotations = [];
      creation_timestamp = 0;
      owner_references = [];
    };
    spec = record {
      template_ref = sched.spec.template_ref;
      repository = sched.spec.repository;
      workspace = sched.spec.workspace;
      auth = sched.spec.auth;
      lead = sched.spec.lead;
      lifecycle = sched.spec.lifecycle;
    };
    status = zero_team.status;
  }

  note_run : Time → ScheduleAction (Unit {0})
  note_run window_at s =
      let name = scheduled_run_name s.sched window_at in
      (
        ok tt,
        record s {
          sched = record s.sched {
            status = record s.sched.status {
              active_run = name;
              runs = record_run name window_at s.sched.status.runs;
            };
          };
        },
      )

  -- A run that is there already was created by an earlier pass for the same window.
  tolerate_exists : Time → Result (Unit {0}) → ScheduleAction (Unit {0})
  unfolding note_run
  tolerate_exists window_at (ok u) s = note_run window_at s
  tolerate_exists window_at (err e) s =
      if is_already_exists e then note_run window_at s else (err e, s)

  create_owned : Time → AgentTeamRun → ScheduleAction (Unit {0})
  unfolding tolerate_exists
  create_owned window_at run s =
      let (r, w) = client.create_run s.world run in
      tolerate_exists window_at r (record s { world = w })

  create_with_owner : Time → Result AgentTeamRun → ScheduleAction (Unit {0})
  unfolding create_owned
  create_with_owner window_at (ok run) = create_owned window_at run
  create_with_owner window_at (err e) = explain "setting controller reference" (raise e)

  unfoldable pub create_run_for_window : Time → ScheduleAction (Unit {0})
  unfolding create_with_owner
  create_run_for_window window_at s =
      create_with_owner window_at (client.set_owner s.sched (run_of s.sched window_at)) s

  refresh_all : World → String → List ScheduledRunStatus → List ScheduledRunStatus
  refresh_all w namespace [] = []
  refresh_all w namespace (rs ∷ runs) =
      refresh_run rs (client.get_run w namespace rs.name) ∷ refresh_all w namespace runs

  unfoldable pub refresh_run_phases : ScheduleAction (Unit {0})
  unfolding refresh_all
  refresh_run_phases s =
      let runs = refresh_all s.world s.sched.meta.namespace s.sched.status.runs in
      (
        ok tt,
        record s {
          sched = record s.sched {
            status = record s.sched.status {
              runs = runs;
              active_run =
                  if s.sched.status.active_run == ""
                  then ""
                  else active_after s.sched.status.active_run runs;
            };
          };
        },
      )

  tolerate_missing : String → Result (Unit {0}) → Result (Unit {0})
  tolerate_missing name (ok u) = ok u
  tolerate_missing name (err e) =
      if is_not_found e then ok tt else err (wrap ("deleting run " <> name <> " for GC") e)

  delete_found : String → Result (Found AgentTeamRun) → ScheduleAction (Unit {0})
  unfolding tolerate_missing
  delete_found name (ok missing) s = (ok tt, s)
  delete_found name (ok (found run)) s =
      let (r, w) = client.delete_run s.world run in
      (tolerate_missing name r, record s { world = w })
  delete_found name (err e) s = (err (wrap ("fetching run " <> name <> " for GC") e), s)

  pub delete_runs : List ScheduledRunStatus → ScheduleAction (Unit {0})
  unfolding delete_found
  delete_runs [] s = (ok tt, s)
  delete_runs (rs ∷ runs) s =
      (do
        delete_found rs.name
            (found_or_missing (client.get_run s.world s.sched.meta.namespace rs.name))
        delete_runs runs)
        s

  drop_runs : ℕ → ScheduleAction (Unit {0})
  drop_runs excess s = (ok tt, with_runs (compact excess s.sched.status.runs) s)

  -- An error keeps the history as it is. A limit that is not positive is 0 here, and keeps all.
  unfoldable pub gc_old_runs : ScheduleAction (Unit {0})
  unfolding delete_runs drop_runs
  gc_old_runs s =
      let limit = s.sched.spec.history_limit in
      let terminal = terminal_runs s.sched.status.runs in
      let excess = length terminal - limit in
      if leb limit 0 || leb excess 0
      then (ok tt, s)
      else (delete_runs (take_runs excess terminal) >>= λ _. drop_runs excess) s

  write_schedule : ScheduleAction (Unit {0})
  write_schedule s =
      let (r, w) = client.update_schedule_status s.world s.sched in (r, record s { world = w })

  advance : Time → (Time → Time) → ScheduleAction (Unit {0})
  advance window_at next s = (
    ok tt,
    record s {
      sched = record s.sched {
        status = record s.sched.status {
          last_scheduled_at = some window_at;
          next_scheduled_at = some (next now);
        };
      };
    },
  )

  -- The window that is due, if one is.
  fire : Time → (Time → Time) → ScheduleAction (Unit {0})
  unfolding advance
  fire window_at next s =
      if ltb now window_at
      then (ok tt, s)
      else (do
        explain ("creating run for window " <> client.show_time window_at)
            (create_run_for_window window_at)
        advance window_at next)
          s

  abbrev next_delay : Option Time → ℕ
  next_delay none = minute
  next_delay (some next_at) = requeue_delay next_at now

  -- What is done to the schedule before its status is written.
  unfoldable pub keep_up : Time → (Time → Time) → ScheduleAction (Unit {0})
  unfolding fire
  keep_up window_at next = do fire window_at next; refresh_run_phases; attempt gc_old_runs; pure tt

  first_pass : (Time → Time) → ScheduleAction ℕ
  unfolding write_schedule
  first_pass next s =
      (do write_schedule; pure (requeue_delay (next now) now))
        (record s {
          sched = record s.sched {
            status = record s.sched.status { next_scheduled_at = some (next now) };
          };
        })

  -- The first pass only notes the next window.
  with_cron : (Time → Time) → Option Time → ScheduleAction ℕ
  unfolding first_pass keep_up
  with_cron next none = first_pass next
  with_cron next (some window_at) = do
    keep_up window_at next
    write_schedule
    (λ s. (ok (next_delay s.sched.status.next_scheduled_at), s))

  -- A malformed expression is not tried again.
  with_parsed : Result (Time → Time) → ScheduleAction ℕ
  unfolding with_cron
  with_parsed (err e) s = (ok 0, s)
  with_parsed (ok next) s = with_cron next s.sched.status.next_scheduled_at s

  after_get : World → Result AgentTeamSchedule → Result ℕ × World
  unfolding with_parsed
  after_get w (ok sched) =
      let (r, s) =
        with_parsed (client.parse_cron sched.spec.schedule) (record { world = w; sched = sched }) in
      (r, s.world)
  after_get w (err e) = (if is_not_found e then ok 0 else err e, w)

  unfoldable pub reconcile_schedule : World → String → String → Result ℕ × World
  unfolding after_get
  reconcile_schedule w namespace name = after_get w (client.get_schedule w namespace name)
