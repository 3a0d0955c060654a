-- ===== src/Team/Failures.antt =====
-- handleTeammateFailures and fireTeammateErrorEvents of agentteam_controller.go.
pub mod Bounded
pub mod Frame
use kagents.Prelude.{
  ℕ, suc, String, Bool, true, false, Option, none, some, List, [], ◌∷◌, ◌++◌, ◌==◌, ◌<>◌, ◌&&◌,
  Dict, show_nat, leb, if◌then◌else◌,
}
use kagents.Result.{Result, Error, ok, err, wrap, is_not_found}
use kagents.Exec.{
  Exec, Found, found, missing, found_or_missing, gets, pure, raise, lift, explain, ◌>>=◌, ◌>>◌,
}
use kagents.Api.Spec.{TeammateSpec}
use kagents.Api.Resources.{AgentTeam}
use kagents.Cluster.Objects.{Pod}
use kagents.Metrics.{record_teammate_restart}
use kagents.Team.Names.{agent_pod_name}
use kagents.Team.Restarts.{max_restarts, teammate_restart_count, set_teammate_restart_count}
use kagents.Team.Agents.{get_pod, ensure_agent_pod, teammate_agent}
use kagents.Team.Sync.{delete_pod}
use kagents.Team.Runtime.{
  Env, Pass, Action, write, change_status, emit, metric, record_event, send_event,
}

module _ (env : Env) where
  open env use {World}

  -- A failed teammate below its limit: delete the pod, count the restart, report it, spawn again.
  unfoldable pub respawn : TeammateSpec → Pod → ℕ → ℕ → Action env (Unit {0})
  respawn tm pod current_count limit s =
      let new_count = suc current_count in
      (do
        explain ("deleting failed pod " <> agent_pod_name s.team tm.name) (delete_pod env pod)
        change_status env λ st. record st {
          teammates = set_teammate_restart_count st.teammates tm.name new_count;
        }
        emit env (metric (record_teammate_restart s.team.meta.name tm.name))
        send_event env "teammate.error" (
            ("teammate", tm.name)
            ∷ ("pod", pod.meta.name)
            ∷ ("reason", pod.reason)
            ∷ ("message", pod.message)
            ∷ ("restartCount", show_nat new_count)
            ∷ ("maxRestarts", show_nat limit)
            ∷ ("action", "respawn")
            ∷ [])
        record_event env "Warning" "TeammateRestarted" (
            "Teammate "
            <> tm.name
            <> " re-spawned after pod failure (restart "
            <> show_nat new_count
            <> "/"
            <> show_nat limit
            <> ")")
        explain ("re-spawning teammate " <> tm.name) (ensure_agent_pod env (teammate_agent tm)))
        s

  -- One round of the loop: a teammate that has used up its restarts ends it.
  check_teammate : TeammateSpec → ℕ → Result (Found Pod) → Action env (Option String)
  check_teammate tm limit (err e) s = (err e, s)
  check_teammate tm limit (ok missing) s = (ok none, s)
  check_teammate tm limit (ok (found pod)) s =
      let count = teammate_restart_count s.team.status.teammates tm.name in
      if pod.phase == "Failed"
      then (if leb limit count
          then (ok (some tm.name), s)
          else (respawn tm pod count limit >>= λ _ t. (ok none, t)) s)
      else (ok none, s)

  -- What follows a round: the return of the loop, or the other rounds.
  abbrev unless_fatal : Action env String → Option String → Action env String
  unless_fatal next none s = next s
  unless_fatal next (some name) s = (ok name, s)

  unfoldable pub check_teammates : ℕ → List TeammateSpec → Action env String
  unfolding check_teammate
  check_teammates limit [] s = (ok "", s)
  check_teammates limit (tm ∷ rest) s =
      (check_teammate tm limit (found_or_missing (get_pod env s tm.name))
          >>= unless_fatal (check_teammates limit rest))
        s

  unfoldable pub handle_teammate_failures : Action env String
  handle_teammate_failures s = check_teammates (max_restarts s.team) s.team.spec.teammates s

  -- The closure `check`: an event for a pod that has failed.
  report_failed : String → Result Pod → Action env (Unit {0})
  report_failed teammate (err e) s = (ok tt, s)
  report_failed teammate (ok pod) s =
      if pod.phase == "Failed"
      then send_event env "teammate.error"
          (("teammate", teammate)
            ∷ ("pod", agent_pod_name s.team teammate)
            ∷ ("reason", pod.reason)
            ∷ ("message", pod.message)
            ∷ [])
          s
      else (ok tt, s)

  report_all : List String → Action env (Unit {0})
  unfolding report_failed
  report_all [] s = (ok tt, s)
  report_all (name ∷ names) s = (do report_failed name (get_pod env s name); report_all names) s

  unfoldable pub fire_teammate_error_events : List String → Action env (Unit {0})
  unfolding report_all
  fire_teammate_error_events names = report_all names
