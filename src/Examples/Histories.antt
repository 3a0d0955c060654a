-- ===== src/Examples/Histories.antt =====
-- A team over several passes.
use kagents.Prelude.{◌≡◌, refl, inl, some, [], In}
use kagents.Exec.{◌>>=◌, pure, gets, raise, lift, explain}
use kagents.Api.Status.{AgentTeamStatus}
use kagents.Api.Resources.{AgentTeam}
use kagents.Team.Provision.{ensure_pvc, pvc_access_mode}
use kagents.Team.Runtime.{
  Env, is_timed_out, put_phase, change_status, put_condition, record_event, emit, update_status,
  write, in_world,
}
use kagents.Team.Steps.{updates}
use kagents.Team.Phases.{
  reconcile, reconcile_team, reconcile_phase, reconcile_pending, reconcile_initializing, end_in,
  enter_phase,
}
use kagents.Team.Phases.History.{History, unwritten, written, IsForward, History-IsForward}
use kagents.Examples.Data.{report_team, new_status, lifecycle}
use kagents.Examples.Clusters.{World, operator}

-- The operator at the start of the team, and five hours later.
abbrev early : Env
early = record operator { now = 0 }

abbrev late : Env
late = record operator { now = 18_000_000_000_000 }

-- A team with a timeout of four hours.
abbrev slow_team : AgentTeam
slow_team = record report_team {
  spec = record report_team.spec { lifecycle = some (record lifecycle { timeout = "4h" }) };
  status = record new_status { phase = "Pending" };
}

abbrev with_team : AgentTeam → World
with_team team = record { team = team; pods = [] }

first_status :
    (st : AgentTeamStatus) × In st
      (updates (reconcile early (with_team slow_team) "cowork" "report").2)
unfolding reconcile updates reconcile_team reconcile_phase reconcile_pending ensure_pvc ◌>>=◌
    change_status put_condition record_event emit update_status pure gets raise lift explain write
    in_world pvc_access_mode
first_status = (_, inl refl)

-- What the cluster then has.
abbrev later_team : AgentTeam
later_team = record slow_team { status = first_status.0 }

last_status :
    (st : AgentTeamStatus) × In st
      (updates (reconcile late (with_team later_team) "cowork" "report").2)
unfolding first_status reconcile updates reconcile_team reconcile_phase reconcile_initializing
    is_timed_out end_in ◌>>=◌ enter_phase put_phase change_status put_condition record_event emit
    update_status pure
last_status = (_, inl refl)

history : History "cowork" "report" "Pending" last_status.0.phase
history =
    written
      (written unwritten early (with_team slow_team) slow_team refl refl first_status.0
        first_status.1)
      late (with_team later_team) later_team refl refl last_status.0 last_status.1

history_example : IsForward "Pending" last_status.0.phase
history_example = History-IsForward "cowork" "report" "Pending" last_status.0.phase refl history

first_phase : first_status.0.phase ≡ "Initializing"
unfolding first_status
first_phase = refl

last_phase : last_status.0.phase ≡ "TimedOut"
unfolding last_status first_status
last_phase = refl
