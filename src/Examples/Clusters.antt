-- ===== src/Examples/Clusters.antt =====
-- A small cluster, and an operator that runs against it.
use kagents.Prelude.{
  ℕ, ◌+◌, ◌-◌, ◌*◌, ◌/◌, String, true, false, none, some, List, [], ◌∷◌, ◌==◌, leb, ltb, show_nat,
  if◌then◌else◌,
}
use kagents.Result.{Result, ok, err, not_found}
use kagents.Api.Resources.{AgentTeam}
use kagents.Budget.{Float}
use kagents.Cluster.{Collection, Client}
use kagents.Cluster.Objects.{Pod, Pvc, Job, ServiceAccount, Role, RoleBinding, ConfigMap, Secret}
use kagents.GitHub.{RestApi}
use kagents.Team.Runtime.{ahead, Reconciler, Env, Pass}
use kagents.Examples.Data.{report_team, team_spec, lifecycle, new_status, status_of, report_meta}

-- The one team and the pods.
pub record World : Type 0 where
  pub team : AgentTeam
  pub pods : List Pod

abbrev pub pod : String → String → Pod
pod name phase = record {
  meta = record report_meta { name = name };
  spec = record {
    restart_policy = "Never";
    service_account_name = "";
    image_pull_secrets = [];
    init_containers = [];
    containers = [];
    volumes = [];
  };
  phase = phase;
  reason = "";
  message = "";
  deletion_timestamp = none;
}

abbrev get_from : List Pod → String → Result Pod
get_from [] name = err (not_found "pod")
get_from (p ∷ ps) name = if p.meta.name == name then ok p else get_from ps name

abbrev remove_from : List Pod → String → List Pod
remove_from [] name = []
remove_from (p ∷ ps) name = if p.meta.name == name then ps else p ∷ remove_from ps name

abbrev pod_collection : Collection World Pod
pod_collection = record {
  get = λ w namespace name. get_from w.pods name;
  create = λ w p. (ok tt, record w { pods = p ∷ w.pods });
  update = λ w p. (ok tt, w);
  delete = λ w namespace name. (ok tt, record w { pods = remove_from w.pods name });
}

-- A kind of which nothing is kept.
abbrev nothing_kept : (A : Type 0) → Collection World A
nothing_kept A = record {
  get = λ w namespace name. err (not_found name);
  create = λ w a. (ok tt, w);
  update = λ w a. (ok tt, w);
  delete = λ w namespace name. (ok tt, w);
}

-- Each secret holds the same data.
abbrev secret_collection : Collection World Secret
secret_collection = record (nothing_kept Secret) {
  get = λ w namespace name. ok (record {
    meta = record report_meta { name = name };
    entries = ("GITHUB_TOKEN", "token") ∷ ("slack-webhook-url", "https://hooks.slack.com/x") ∷ [];
  });
}

abbrev client : Client
client = record {
  World = World;
  pods = pod_collection;
  pvcs = nothing_kept Pvc;
  jobs = nothing_kept Job;
  service_accounts = nothing_kept ServiceAccount;
  roles = nothing_kept Role;
  role_bindings = nothing_kept RoleBinding;
  config_maps = nothing_kept ConfigMap;
  secrets = secret_collection;
  get_team = λ w namespace name. ok w.team;
  list_pods = λ w namespace label value. ok w.pods;
  update_status = λ w team. (ok tt, record w { team = team });
  set_controller_reference =
      λ team meta. ok (record meta { owner_references = team.meta.name ∷ [] });
  parse_quantity = λ text. ok text;
  http_post = λ w url fields. (ok 200, w);
}

-- Amounts in millionths.
abbrev float : Float
float = record {
  F = ℕ;
  of_int = λ n. n * 1_000_000;
  add = λ a b. a + b;
  sub = λ a b. a - b;
  mul = λ a b. a * b / 1_000_000;
  div = λ a b. a * 1_000_000 / b;
  le = leb;
  lt = ltb;
  scan = λ text. if text == "10" then some 10_000_000 else none;
  show_cents = λ a. show_nat (a / 10_000);
}

abbrev reconciler : Reconciler
reconciler = record {
  agent_image = "";
  init_image = "";
  skill_puller_image = "";
  skip_init_script = false;
  agent_command = [];
  pvc_access_mode = "";
  github_base_url = "";
  has_recorder = true;
  harnesses = [];
}

-- Each request is answered with "201 Created".
abbrev github : RestApi World
github = record {
  transport = record {
    new_request = λ method url. ok tt;
    do_request = λ w req. (ok (record { code = 201; status = "201 Created"; body = "{}" }), w);
  };
  path_escape = λ text. text;
  decode_pull_request =
      λ text. ok (record { number = 7; html_url = "https://pr/7"; state = "open" });
}

abbrev pub operator : Env
operator = record {
  client = client;
  float = float;
  reconciler = reconciler;
  now = 7_200_000_000_000;
  parse_duration = λ text. some (ahead 14_400_000_000_000);
  render = λ template name namespace. ok name;
  marshal = λ json. ok "{}";
  senders = [];
  github = github;
}

-- The lead runs, the researcher has the given phase, and the writer waits for it.
abbrev pub running_team : AgentTeam
running_team = record report_team {
  spec = record team_spec { lifecycle = some lifecycle };
  status = record new_status {
    phase = "Running";
    started_at = some 0;
    teammates = status_of "researcher" "Running" ∷ [];
  };
}

abbrev pub world : String → World
world phase = record {
  team = running_team;
  pods = pod "report-lead" "Running" ∷ pod "report-researcher" phase ∷ [];
}

abbrev pub pass : String → Pass World ℕ
pass phase = record { world = world phase; team = running_team; effects = [] }
