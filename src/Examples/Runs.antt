-- ===== src/Examples/Runs.antt =====
-- Templates and runs against a cluster that is the list of its teams.
use kagents.Prelude.{◌≡◌, refl, ◌↔◌, true, false, none, some, List, [], ◌∷◌}
use kagents.Result.{ok, err, not_found}
use kagents.Api.Resources.{AgentTeam, AgentTeamTemplate, AgentTeamRun}
use kagents.Cluster.{Collection}
use kagents.Team.Conditions.Laws.{find_condition}
use kagents.Template.Valid.{IsValid}
use kagents.Template.Status.{ready_condition, status_text, judge}
use kagents.Template.Verdict.{status_of, judge-IsValid}
use kagents.Run.{RunClient, reconcile_run}
use kagents.Run.Child.{with_teams, reconcile_run-unusable}
use kagents.Examples.Data.{report_meta, report_team, report_template, lead, new_status}

-- The template before its first pass.
abbrev new_template : AgentTeamTemplate
new_template = record {
  meta = report_meta;
  spec = report_template;
  status = record { ready = false; conditions = [] };
}

judge_example :
    let st = (judge 5 new_template).status in
    ((st.ready ≡ true) ↔ IsValid report_template)
    × (status_of (find_condition ready_condition st.conditions) ≡ some (status_text st.ready))
judge_example = judge-IsValid 5 new_template

abbrev run : AgentTeamRun
run = record {
  meta = report_meta;
  spec = record {
    template_ref = record { name = "report" };
    repository = none;
    workspace = none;
    auth = report_team.spec.auth;
    lead = lead;
    lifecycle = none;
  };
  status = new_status;
}

abbrev teams : Collection (List AgentTeam) AgentTeam
teams = record {
  get = λ w namespace name. err (not_found name);
  create = λ w team. (ok tt, team ∷ w);
  update = λ w team. (ok tt, w);
  delete = λ w namespace name. (ok tt, w);
}

abbrev read_only : Collection (List AgentTeam) AgentTeam
read_only = record teams { create = λ w team. (ok tt, w) }

abbrev client : RunClient
client = record {
  World = List AgentTeam;
  teams = teams;
  get_run = λ w namespace name. ok run;
  get_template = λ w namespace name. ok new_template;
  update_run_status = λ w r. (ok tt, w);
  set_owner = λ r team. ok team;
  now = 7;
}

reconcile_run_example :
    reconcile_run client [] "cowork" "report"
    ≡ reconcile_run (with_teams client read_only) [] "cowork" "report"
reconcile_run_example = reconcile_run-unusable client read_only [] "cowork" "report" run refl refl
