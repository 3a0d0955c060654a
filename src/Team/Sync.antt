-- ===== src/Team/Sync.antt =====
-- syncPodStatuses, allPodsComplete and terminateAllPods of agentteam_controller.go.
pub mod Completion
pub mod Frame
use kagents.Prelude.{
  ℕ, suc, String, Bool, true, false, Option, none, some, List, [], ◌∷◌, ◌++◌, map, ◌==◌, ◌<>◌, ◌&&◌,
  ◌||◌, Dict, lookup_or, insert, length, show_nat, is_some, if◌then◌else◌,
}
use kagents.Result.{Result, Error, ok, err, is_not_found}
use kagents.Exec.{
  Exec, Found, found, missing, found_or_missing, gets, pure, raise, lift, attempt, ◌>>=◌, ◌>>◌,
}
use kagents.Api.Spec.{TeammateSpec, OutputSpec}
use kagents.Api.Status.{Time, AgentStatus, TeammateStatus, AgentTeamStatus}
use kagents.Api.Resources.{AgentTeam}
use kagents.Cluster.Objects.{Pod}
use kagents.Metrics.{record_artifact_produced}
use kagents.Team.Restarts.{zero_teammate}
use kagents.Team.Artifacts.{record_teammate_artifacts, new_artifacts, artifact_key}
use kagents.Team.Agents.{get_pod}
use kagents.Team.Runtime.{Env, Pass, Action, write, change_status, emit, metric}

unfoldable pub pod_phase_to_agent_phase : Pod → String
pod_phase_to_agent_phase pod =
    if pod.phase == "Running"
    then "Running"
    else if pod.phase == "Succeeded"
    then "Completed"
    else if pod.phase == "Failed"
    then "Failed"
    else "Pending"

-- prev: the entries by name, a later one over an earlier.
unfoldable pub index_teammates : Dict TeammateStatus → List TeammateStatus → Dict TeammateStatus
index_teammates prev [] = prev
index_teammates prev (st ∷ rest) = index_teammates (insert st.name st prev) rest

-- The switch on the Get of a teammate's pod; another error leaves the entry as it is.
unfoldable pub refresh_teammate : TeammateStatus → Result (Found Pod) → TeammateStatus
refresh_teammate st (ok (found pod)) = record st {
  pod_name = pod.meta.name;
  phase = pod_phase_to_agent_phase pod;
}
refresh_teammate st (ok missing) = record st { pod_name = ""; phase = "Waiting" }
refresh_teammate st (err e) = st

abbrev pub is_ready : TeammateStatus → Bool
is_ready st = st.phase == "Running" || st.phase == "Completed"

abbrev pub count_ready : List TeammateStatus → ℕ
count_ready [] = 0
count_ready (st ∷ rest) = if is_ready st then suc (count_ready rest) else count_ready rest

-- What allPodsComplete reports: all pods succeeded, one failed, or neither.
pub data Outcome : Type 0 where
  all_done any_failed waiting : Outcome

-- The closure checkPod, where a pod that is not there is waited for.
abbrev pub check_pod : Result (Found Pod) → Result Outcome
check_pod (err e) = err e
check_pod (ok missing) = ok waiting
check_pod (ok (found pod)) =
    if pod.phase == "Succeeded"
    then ok all_done
    else if pod.phase == "Failed"
    then ok any_failed
    else ok waiting

module _ (env : Env) where
  open env use {World, now}

  abbrev lead_status : AgentTeamStatus → Result Pod → AgentTeamStatus
  lead_status st (ok pod) = record st {
    lead = some (record { pod_name = pod.meta.name; phase = pod_phase_to_agent_phase pod });
  }
  lead_status st (err e) = st

  unfoldable pub rebuild_teammates :
      Pass World env.float.F → Dict TeammateStatus → List TeammateSpec → List TeammateStatus
  rebuild_teammates s prev [] = []
  rebuild_teammates s prev (tm ∷ rest) =
      refresh_teammate (record (lookup_or zero_teammate tm.name prev) { name = tm.name })
        (found_or_missing (get_pod env s tm.name))
      ∷ rebuild_teammates s prev rest

  -- recordTeammateArtifacts on the team in memory, with the counter raised once for each new entry.
  record_artifacts : TeammateSpec → Action env (Unit {0})
  unfolding record_teammate_artifacts
  record_artifacts tm s =
      let artifacts = s.team.status.artifacts in
      let new = new_artifacts (map artifact_key artifacts) tm now tm.outputs in
      (
        ok tt,
        record s {
          team = record s.team {
            status = record s.team.status {
              artifacts = record_teammate_artifacts artifacts tm now;
            };
          };
          effects =
              s.effects
              ++ map
                  (λ a.
                    metric
                      (record_artifact_produced s.team.meta.name s.team.meta.namespace tm.name))
                  new;
        },
      )

  abbrev has_succeeded : Result Pod → Bool
  has_succeeded (ok pod) = pod.phase == "Succeeded"
  has_succeeded (err e) = false

  -- The calls of recordTeammateArtifacts on the way through the teammates.
  unfoldable pub record_succeeded : List TeammateSpec → Action env (Unit {0})
  unfolding record_artifacts
  record_succeeded [] s = (ok tt, s)
  record_succeeded (tm ∷ rest) s =
      record_succeeded rest
        (if has_succeeded (get_pod env s tm.name) then (record_artifacts tm s).1 else s)

  -- The reads change nothing, so the entries are rebuilt in one go.
  unfoldable pub sync_pod_statuses : Action env (Unit {0})
  sync_pod_statuses s =
      let teammates = s.team.spec.teammates in
      let rebuilt = rebuild_teammates s (index_teammates [] s.team.status.teammates) teammates in
      let lead_pod = get_pod env s "lead" in
      let s' = (record_succeeded teammates s).1 in
      change_status env
        (λ st. record (lead_status st lead_pod) {
          teammates = rebuilt;
          ready = show_nat (count_ready rebuilt) <> "/" <> show_nat (length teammates);
        })
        s'

  -- allPodsComplete over the names of the agents, the lead first: an error or a failure ends the scan.
  unfoldable pub scan_pods : Pass World env.float.F → Outcome → List String → Result Outcome
  scan_pods s so_far [] = ok so_far
  scan_pods s so_far (name ∷ names) =
      let later_done = scan_pods s so_far names in
      let later_waiting = scan_pods s waiting names in
      elim (check_pod (found_or_missing (get_pod env s name))) [
        | err e ↦ err e
        | ok outcome ↦ elim outcome [
          | all_done ↦ later_done
          | any_failed ↦ ok any_failed
          | waiting ↦ later_waiting
        ]
      ]

  abbrev pub agent_names : AgentTeam → List String
  agent_names team = "lead" ∷ map (λ tm. tm.name) team.spec.teammates

  unfoldable pub all_pods_complete : Action env Outcome
  all_pods_complete s = (scan_pods s all_done (agent_names s.team), s)

  -- terminateAllPods

  abbrev pub tolerate_missing : Result (Unit {0}) → Result (Unit {0})
  tolerate_missing (ok u) = ok u
  tolerate_missing (err e) = if is_not_found e then ok tt else err e

  -- A delete where a pod that is gone already is as good.
  unfoldable pub delete_pod : Pod → Action env (Unit {0})
  delete_pod pod s =
      let (r, w) = env.pods.delete s.world pod.meta.namespace pod.meta.name in
      (tolerate_missing r, record s { world = w })

  unfoldable pub delete_pods : List Pod → Action env (Unit {0})
  delete_pods [] s = (ok tt, s)
  delete_pods (pod ∷ rest) s =
      (do
        (if is_some pod.deletion_timestamp then (λ t. (ok tt, t)) else delete_pod pod)
        delete_pods rest)
        s

  unfoldable pub terminate_all_pods : Action env (Unit {0})
  terminate_all_pods = do
    pods ←
        (λ s. (env.list_pods s.world s.team.meta.namespace "kagents.dev/team" s.team.meta.name, s))
    delete_pods pods
