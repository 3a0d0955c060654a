-- ===== src/Examples/Data.antt =====
-- A team with a pipeline of two stages, its teammates and its status.
use kagents.Prelude.{String, false, none, some, List, [], ◌∷◌}
use kagents.Api.Spec.{
  ResourceRequirements, LeadSpec, TeammateSpec, InputSpec, StageSpec, AgentTeamSpec, LifecycleSpec,
}
use kagents.Api.Status.{AgentTeamStatus, TeammateStatus}
use kagents.Api.Resources.{ObjectMeta, AgentTeam, AgentTeamTemplateSpec}
use kagents.Team.Restarts.{zero_teammate}

abbrev pub no_resources : ResourceRequirements
no_resources = record { limits = []; requests = [] }

abbrev pub lead : LeadSpec
lead = record {
  model = "opus";
  prompt = "Coordinate the report.";
  permission_mode = "auto-accept";
  skills = [];
  mcp_servers = [];
  resources = no_resources;
}

abbrev pub teammate : String → List String → List InputSpec → TeammateSpec
teammate name depends_on inputs = record {
  name = name;
  model = "sonnet";
  prompt = "Write.";
  scope = none;
  depends_on = depends_on;
  outputs = record { path = "/workspace/output/findings.md"; description = "" } ∷ [];
  inputs = inputs;
  skills = [];
  mcp_servers = [];
  resources = no_resources;
}

abbrev pub researcher : TeammateSpec
researcher = teammate "researcher" [] []

-- The data flow from the researcher repeats the dependency.
abbrev pub writer : TeammateSpec
writer =
    teammate "writer" ("researcher" ∷ [])
      (record { from = "researcher"; artifact = "findings.md"; mount_path = "/workspace/in" } ∷ [])

abbrev pub stage : String → List String → List String → StageSpec
stage name teammates depends_on = record {
  name = name;
  teammates = teammates;
  depends_on = depends_on;
  fan = "";
  approval_required = false;
}

abbrev pub research_stage : StageSpec
research_stage = stage "research" ("researcher" ∷ []) []

abbrev pub writing_stage : StageSpec
writing_stage = stage "writing" ("writer" ∷ []) ("research" ∷ [])

abbrev pub new_status : AgentTeamStatus
new_status = record {
  phase = "";
  started_at = none;
  completed_at = none;
  total_tokens_used = 0;
  estimated_cost = "";
  ready = "";
  lead = none;
  teammates = [];
  tasks = none;
  pull_request = none;
  consolidated_branch = "";
  artifacts = [];
  pipeline = none;
  delivery = [];
  conditions = [];
}

abbrev pub team_spec : AgentTeamSpec
team_spec = record {
  repository = none;
  workspace = none;
  auth = record { api_key_secret = "anthropic-api-key"; oauth_secret = "" };
  lead = lead;
  teammates = researcher ∷ writer ∷ [];
  coordination = none;
  lifecycle = none;
  quality_gates = none;
  observability = none;
  pipeline = none;
  harness = "";
  image_pull_secrets = [];
}

abbrev pub report_meta : ObjectMeta
report_meta = record {
  name = "report";
  namespace = "cowork";
  labels = [];
  annotations = [];
  creation_timestamp = 0;
  owner_references = [];
}

abbrev pub report_team : AgentTeam
report_team = record { meta = report_meta; spec = team_spec; status = new_status }

abbrev pub status_of : String → String → TeammateStatus
status_of name phase = record zero_teammate { name = name; phase = phase }

-- The research is done and the writer runs.
abbrev pub staged_team : AgentTeam
staged_team = record {
  meta = report_meta;
  spec = record team_spec {
    pipeline = some (record { stages = research_stage ∷ writing_stage ∷ [] });
  };
  status = record new_status {
    teammates = status_of "researcher" "Completed" ∷ status_of "writer" "Running" ∷ [];
  };
}

abbrev pub report_template : AgentTeamTemplateSpec
report_template = record {
  description = "";
  teammates = researcher ∷ writer ∷ [];
  coordination = none;
  lifecycle = none;
  quality_gates = none;
}

-- A lifecycle with a budget of ten dollars.
abbrev pub lifecycle : LifecycleSpec
lifecycle = record {
  timeout = "";
  budget_limit = some "10";
  on_complete = "none";
  delivery = [];
  pull_request = none;
  approval_gates = [];
  max_restarts = some 2;
  github_token_secret = "";
  pr_title_template = "";
  git_credentials_secret = "";
  consolidated_branch_template = "";
}
