-- ===== src/TriggerStatus.antt =====
-- internal/controller/agentteamtrigger_controller.go: the status of a trigger, from the runs that carry
-- its label. The API client's calls are the parameters of the record `TriggerClient`, and so is the
-- order of sort.Slice, which does not promise where it puts runs of one time.
pub mod Newest
use kagents.Prelude.{
  ℕ, zero, suc, String, Bool, not, Option, none, some, List, [], ◌∷◌, ◌==◌, ◌&&◌, leb, length,
  if◌then◌else◌,
}
use kagents.Result.{Result, ok, err, is_not_found}
use kagents.Api.Resources.{AgentTeamRun}
use kagents.Api.Triggers.{AgentTeamTrigger, AgentTeamTriggerStatus, TriggerRunStatus}
use kagents.Schedule.{is_run_terminal}

pub record TriggerClient : Type 1 where
  pub World : Type 0
  pub get_trigger : World → String → String → Result AgentTeamTrigger
  -- the runs in a namespace that have a value of the label kagents.dev/trigger
  pub list_runs : World → String → String → Result (List AgentTeamRun)
  -- r.Status().Update of a trigger
  pub update_trigger_status : World → AgentTeamTrigger → Result (Unit {0}) × World
  -- sort.Slice by the creation time, the latest first
  pub newest_first : List AgentTeamRun → List AgentTeamRun
  -- HistoryLimit, where 0 stands for any limit that is not positive
  pub history_limit : ℕ

unfoldable pub trigger_history_limit : ℕ → ℕ
trigger_history_limit limit = if leb limit 0 then 20 else limit

-- The entries of the first `limit` runs.
unfoldable pub history_of : ℕ → List AgentTeamRun → List TriggerRunStatus
history_of zero runs = []
history_of (suc limit) [] = []
history_of (suc limit) (run ∷ runs) =
    record {
      name = run.meta.name;
      triggered_at = run.meta.creation_timestamp;
      phase = run.status.phase;
    }
    ∷ history_of limit runs

-- The loop over the runs, with the name that it has found so far.
unfoldable pub active_of : String → List AgentTeamRun → String
active_of active [] = active
active_of active (run ∷ runs) =
    active_of
      (if active == "" && not (is_run_terminal run.status.phase) then run.meta.name else active)
      runs

abbrev pub last_time : AgentTeamTriggerStatus → List AgentTeamRun → Option ℕ
last_time old [] = old.last_triggered_at
last_time old (run ∷ runs) = some run.meta.creation_timestamp

-- The status for the runs in their order.
unfoldable pub status_for : ℕ → AgentTeamTriggerStatus → List AgentTeamRun → AgentTeamTriggerStatus
status_for limit old runs = record {
  last_triggered_at = last_time old runs;
  active_run = active_of "" runs;
  total_runs = length runs;
  runs = history_of (trigger_history_limit limit) runs;
}

module _ (client : TriggerClient) where
  open client use {World}

  written : Result (Unit {0}) × World → Result ℕ × World
  written (ok u, w) = (ok 30_000_000_000, w)
  written (err e, w) = (err e, w)

  with_runs : World → AgentTeamTrigger → Result (List AgentTeamRun) → Result ℕ × World
  unfolding written
  with_runs w trig (err e) = (err e, w)
  with_runs w trig (ok runs) = written (
      client.update_trigger_status w (record trig {
        status = status_for client.history_limit trig.status (client.newest_first runs);
      }))

  with_trigger : World → Result AgentTeamTrigger → Result ℕ × World
  unfolding with_runs
  with_trigger w (err e) = (if is_not_found e then ok 0 else err e, w)
  with_trigger w (ok trig) =
      with_runs w trig (client.list_runs w trig.meta.namespace trig.meta.name)

  -- The delay of the requeue in nanoseconds, or 0 for none.
  unfoldable pub reconcile_trigger : World → String → String → Result ℕ × World
  unfolding with_trigger
  reconcile_trigger w namespace name = with_trigger w (client.get_trigger w namespace name)
