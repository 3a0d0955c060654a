-- ===== src/Examples/Views.antt =====
-- The routes and the progress bar of the dashboard at concrete inputs.
use kagents.Prelude.{
  ◌≡◌, ◌↔◌, refl, ◌≤◌, String, true, none, List, [], ◌∷◌, All, Lacks-of_literal, join, ◌<>◌,
}
use kagents.Result.{ok}
use kagents.Team.Pipeline.{update_pipeline_status}
use kagents.Team.Pipeline.Summary.{is_completed, stages_after}
use kagents.Dashboard.{Server, Request, Views}
use kagents.Dashboard.Routes.{routes}
use kagents.Dashboard.Routes.Paths.{Link, log_link, path_of, IsClean}
use kagents.Dashboard.Routes.Links.{served, routes-path_of}
use kagents.Dashboard.Funcs.{pipeline_percent}
use kagents.Dashboard.Funcs.Progress.{pipeline_percent_exact}
use kagents.Examples.Data.{report_team, staged_team, research_stage, writing_stage}

abbrev server : Server
server = record { has_kube_client = true; namespace = "cowork" }

-- One team, and templates that render nothing.
abbrev views : Views
views = record {
  list = λ ns. ok (report_team ∷ []);
  get = λ ns name. ok report_team;
  logs = λ ns pod follow. ok ("log\n" ∷ []);
  Template = List String;
  parse_fs = λ files. ok files;
  execute = λ tpl name input. ("", none);
}

abbrev get_path : String → Request
get_path path = record {
  method = "GET";
  path = path;
  namespace = "";
  follow = "";
  can_flush = true;
}

abbrev logs : Link
logs = log_link "cowork" "report" "lead"

clean : IsClean logs
clean = (
  (λ e. cc, Lacks-of_literal 47 "cowork" refl),
  (λ e. cc, Lacks-of_literal 47 "report" refl),
  (λ e. cc, Lacks-of_literal 47 "lead" refl),
)

logs_path : "/api/teams/cowork/report/logs/lead" ≡ path_of logs
unfolding join ◌<>◌
logs_path = refl

routes_example :
    routes server views (λ text. text) (get_path "/api/teams/cowork/report/logs/lead")
    ≡ served server views (λ text. text) (get_path "/api/teams/cowork/report/logs/lead") logs
routes_example =
    routes-path_of server views (λ text. text) (get_path "/api/teams/cowork/report/logs/lead") logs
      clean refl logs_path

pipeline_percent_example :
    let pct = pipeline_percent (update_pipeline_status staged_team 7).0 in
    (pct ≤ 100)
    × ((pct ≡ 100)
        ↔ All
            (λ ss. is_completed ss ≡ true)
            (stages_after staged_team 7 (research_stage ∷ writing_stage ∷ [])))
pipeline_percent_example =
    pipeline_percent_exact staged_team 7 research_stage (writing_stage ∷ []) refl
