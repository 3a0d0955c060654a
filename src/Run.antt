-- ===== src/Run.antt =====
-- internal/controller/agentteamrun_controller.go: a run makes an AgentTeam from a template. The API
-- client and the scheme are the parameters of the record `RunClient`.
pub mod Child
use kagents.Prelude.{
  ℕ, String, Bool, true, false, not, Option, none, some, List, [], ◌<>◌, if◌then◌else◌,
}
use kagents.Result.{Result, Error, ok, err, wrap, is_not_found}
use kagents.Fmt.{quote}
use kagents.Exec.{
  Exec, Found, found, missing, found_or_missing, gets, pure, raise, lift, explain, ◌>>=◌, ◌>>◌,
}
use kagents.Api.Spec.{LifecycleSpec, AgentTeamSpec}
use kagents.Api.Status.{Time, condition_true, condition_false}
use kagents.Api.Resources.{ObjectMeta, AgentTeam, AgentTeamTemplate, AgentTeamRun}
use kagents.Cluster.{Collection}
use kagents.Team.Conditions.{write_condition}
use kagents.Template.Status.{trim_message}

pub record RunClient : Type 1 where
  pub World : Type 0
  pub teams : Collection World AgentTeam
  pub get_run : World → String → String → Result AgentTeamRun
  pub get_template : World → String → String → Result AgentTeamTemplate
  -- r.Status().Update of a run
  pub update_run_status : World → AgentTeamRun → Result (Unit {0}) × World
  -- ctrl.SetControllerReference(run, team)
  pub set_owner : AgentTeamRun → AgentTeam → Result AgentTeam
  pub now : Time

-- AgentTeam{}
abbrev pub zero_team : AgentTeam
zero_team = record {
  meta = record {
    name = "";
    namespace = "";
    labels = [];
    annotations = [];
    creation_timestamp = 0;
    owner_references = [];
  };
  spec = record {
    repository = none;
    workspace = none;
    auth = record { api_key_secret = ""; oauth_secret = "" };
    lead = record {
      model = "";
      prompt = "";
      permission_mode = "";
      skills = [];
      mcp_servers = [];
      resources = record { limits = []; requests = [] };
    };
    teammates = [];
    coordination = none;
    lifecycle = none;
    quality_gates = none;
    observability = none;
    pipeline = none;
    harness = "";
    image_pull_secrets = [];
  };
  status = record {
    phase = "";
    started_at = none;
    completed_at = none;
    total_tokens_used = 0;
    estimated_cost = "";
    ready = "";
    lead = none;
    teammates = [];
    tasks = none;
    pull_request = none;
    consolidated_branch = "";
    artifacts = [];
    pipeline = none;
    delivery = [];
    conditions = [];
  };
}

abbrev choose_lifecycle : Option LifecycleSpec → Option LifecycleSpec → Option LifecycleSpec
choose_lifecycle (some own) default = some own
choose_lifecycle none default = default

-- What is not named has its zero value.
unfoldable pub merge_run_into_template : AgentTeamRun → AgentTeamTemplate → AgentTeamSpec
merge_run_into_template run tmpl = record {
  repository = run.spec.repository;
  workspace = run.spec.workspace;
  auth = run.spec.auth;
  lead = run.spec.lead;
  teammates = tmpl.spec.teammates;
  coordination = tmpl.spec.coordination;
  lifecycle = choose_lifecycle run.spec.lifecycle tmpl.spec.lifecycle;
  quality_gates = tmpl.spec.quality_gates;
  observability = none;
  pipeline = none;
  harness = "";
  image_pull_secrets = [];
}

unfoldable pub mirror_team_status : AgentTeamRun → AgentTeam → AgentTeamRun
mirror_team_status run team = record run {
  status = record team.status { conditions = run.status.conditions };
}

abbrev pub team_created : String
team_created = "TeamCreated"

unfoldable pub set_run_condition : Time → String → String → String → AgentTeamRun → AgentTeamRun
set_run_condition now status reason text run = record run {
  status = record run.status {
    conditions =
        write_condition team_created now status reason (trim_message text 256)
          run.status.conditions;
  };
}

module _ (client : RunClient) where
  open client use {World, teams, now}

  -- The world, and what the pass holds of the run.
  pub record RunPass : Type 0 where
    pub world : World
    pub run : AgentTeamRun

  abbrev pub RunAction : Type 0 → Type 0
  RunAction A = Exec RunPass A

  write_run : RunAction (Unit {0})
  write_run s = let (r, w) = client.update_run_status s.world s.run in (r, record s { world = w })

  change_run : (AgentTeamRun → AgentTeamRun) → RunAction (Unit {0})
  change_run f s = (ok tt, record s { run = f s.run })

  -- The closure `mutate`, on the team that was read or is to be made.
  mutate : AgentTeamRun → AgentTeamSpec → AgentTeam → Result AgentTeam
  mutate run spec team = client.set_owner run (record team { spec = spec })

  put_team : (World → AgentTeam → Result (Unit {0}) × World) → AgentTeam → RunAction AgentTeam
  put_team write team s = let (r, w) = write s.world team in (answer r, record s { world = w })
    where
      answer : Result (Unit {0}) → Result AgentTeam
      answer (ok u) = ok team
      answer (err e) = err e

  -- ctrlOpCreateOrUpdate: the team that was written, which the API server returns as it was sent.
  create_or_update : AgentTeamSpec → AgentTeam → Result (Found AgentTeam) → RunAction AgentTeam
  unfolding mutate put_team
  create_or_update spec fresh (err e) = raise e
  create_or_update spec fresh (ok missing) = do
    run ← gets (λ s. s.run)
    team ← lift (mutate run spec fresh)
    put_team teams.create team
  create_or_update spec fresh (ok (found team)) = do
    run ← gets (λ s. s.run)
    changed ← lift (mutate run spec team)
    put_team teams.update changed

  abbrev named_team : AgentTeamRun → AgentTeam
  named_team run = record zero_team {
    meta = record zero_team.meta { name = run.meta.name; namespace = run.meta.namespace };
  }

  instantiate : AgentTeamTemplate → RunAction ℕ
  unfolding create_or_update change_run write_run
  instantiate tmpl = do
    run ← gets (λ s. s.run)
    fresh ←
        explain "setting owner reference on child team"
          (lift (client.set_owner run (named_team run)))
    existing ← gets (λ s. teams.get s.world run.meta.namespace run.meta.name)
    team ←
        explain "creating/updating child AgentTeam"
          (create_or_update (merge_run_into_template run tmpl) fresh (found_or_missing existing))
    change_run λ r. mirror_team_status r team
    change_run λ r.
        set_run_condition now condition_true "TeamCreated"
          ("Child AgentTeam " <> quote team.meta.name <> " is " <> team.status.phase) r
    write_run
    pure 0

  -- The requeue delay in seconds, 0 for none.
  reconcile_with : Result (Found AgentTeamTemplate) → RunAction ℕ
  unfolding change_run write_run instantiate
  reconcile_with (err e) = raise e
  reconcile_with (ok missing) = do
    change_run λ r.
        set_run_condition now condition_false "TemplateNotFound"
          ("AgentTeamTemplate "
            <> quote r.spec.template_ref.name
            <> " not found in namespace "
            <> quote r.meta.namespace)
          (record r { status = record r.status { phase = "Failed" } })
    write_run
    pure 0
  reconcile_with (ok (found tmpl)) = if tmpl.status.ready then instantiate tmpl else (do
    change_run λ r.
        set_run_condition now condition_false "TemplateNotReady"
          ("AgentTeamTemplate " <> quote tmpl.meta.name <> " is not yet Ready") r
    write_run
    pure 15)

  after_get : World → Result AgentTeamRun → Result ℕ × World
  unfolding reconcile_with
  after_get w (ok run) =
      let (r, s) =
        reconcile_with
          (found_or_missing (client.get_template w run.meta.namespace run.spec.template_ref.name))
          (record { world = w; run = run }) in
      (r, s.world)
  after_get w (err e) = (if is_not_found e then ok 0 else err e, w)

  unfoldable pub reconcile_run : World → String → String → Result ℕ × World
  unfolding after_get
  reconcile_run w namespace name = after_get w (client.get_run w namespace name)
