-- ===== src/Team/Provision.antt =====
-- The volumes and jobs of a team: ensurePVC, ensureInitJob, ensurePushBranchJob and checkJobStatus of
-- agentteam_controller.go. The shell scripts are in Provision/Scripts.
mod Scripts
pub mod Frame
use kagents.Prelude.{
  ℕ, ◌≤◌, String, Bool, true, false, not, Option, none, some, List, [], ◌∷◌, ◌++◌, map, ◌==◌, ◌<>◌,
  ltb, leb, if◌then◌else◌,
}
use kagents.Result.{Result, Error, ok, err, wrap}
use kagents.Fmt.{quote}
use kagents.Exec.{
  Exec, Found, found, missing, found_or_missing, gets, pure, raise, lift, explain, ◌>>=◌, ◌>>◌,
}
use kagents.Api.Spec.{RepositorySpec, TeammateSpec, LifecycleSpec}
use kagents.Api.Resources.{ObjectMeta, AgentTeam}
use kagents.Cluster.Objects.{EnvVar, secret_key, Volume, VolumeMount, Container, PodSpec, Pvc, Job}
use kagents.Team.Names.{
  team_state_pvc_name, repo_pvc_name, init_job_name, push_branch_job_name, or_default,
}
use kagents.Team.Rbac.{named}
use kagents.Team.Pod.Sections.{pvc_volume}
use kagents.Team.Runtime.{Reconciler, Env, Action, write}
use Scripts.{init_script, push_script}

abbrev pub default_init_image : String
default_init_image = "alpine/git:latest"

unfoldable pub init_image : Reconciler → String
init_image r = or_default r.init_image default_init_image

unfoldable pub pvc_access_mode : Reconciler → String
pvc_access_mode r = or_default r.pvc_access_mode "ReadWriteMany"

abbrev pub backoff_limit : ℕ
backoff_limit = 3

-- GIT_TOKEN from the secret's key `token`, which may be missing.
git_token : String → List EnvVar
git_token cred_secret =
    if cred_secret == ""
    then []
    else record { name = "GIT_TOKEN"; source = secret_key cred_secret "token" true } ∷ []

-- The job's pod: one container that runs a shell command with the given volumes.
job_pod : Reconciler → String → List String → String → List VolumeMount → List Volume → PodSpec
unfolding git_token
job_pod r name command cred_secret mounts volumes = record {
  restart_policy = "OnFailure";
  service_account_name = "";
  image_pull_secrets = [];
  init_containers = [];
  containers =
      record {
        name = name;
        image = init_image r;
        command = command;
        env = git_token cred_secret;
        volume_mounts = mounts;
        resources = record { limits = []; requests = [] };
      }
      ∷ [];
  volumes = volumes;
}

abbrev mount_at : String → String → VolumeMount
mount_at name path = record { name = name; mount_path = path; read_only = false }

abbrev teammate_names : List TeammateSpec → List String
teammate_names = map (λ tm. tm.name)

abbrev git_secret_of : Option LifecycleSpec → String
git_secret_of none = ""
git_secret_of (some lifecycle) = lifecycle.git_credentials_secret

unfoldable pub init_job_pod : Reconciler → AgentTeam → RepositorySpec → PodSpec
unfolding job_pod
init_job_pod r team repo =
    job_pod r "init"
      ("sh"
        ∷ "-c"
        ∷ (if r.skip_init_script
            then "exit 0"
            else init_script repo.url (or_default repo.branch "main")
                (teammate_names team.spec.teammates) team.meta.name)
        ∷ [])
      repo.credentials_secret (mount_at "repo" "/workspace" ∷ mount_at "team-state" "/state" ∷ [])
      (pvc_volume "repo" (repo_pvc_name team)
        ∷ pvc_volume "team-state" (team_state_pvc_name team)
        ∷ [])

-- lifecycle.gitCredentialsSecret is preferred to repository.credentialsSecret.
unfoldable pub push_job_pod : Reconciler → AgentTeam → RepositorySpec → String → PodSpec
unfolding job_pod
push_job_pod r team repo consolidated_branch =
    job_pod r "push-branch"
      ("sh"
        ∷ "-c"
        ∷ push_script (or_default repo.branch "main") consolidated_branch
            (teammate_names team.spec.teammates)
        ∷ [])
      (or_default (git_secret_of team.spec.lifecycle) repo.credentials_secret)
      (mount_at "repo" "/workspace" ∷ []) (pvc_volume "repo" (repo_pvc_name team) ∷ [])

module _ (env : Env) where
  open env use {World, reconciler}

  -- The rest of ensurePVC after a Get of the claim.
  create_pvc :
      AgentTeam → String → String → String → String → Result (Found Pvc) → Action env (Unit {0})
  create_pvc team name storage_class access_mode size (err e) = raise e
  create_pvc team name storage_class access_mode size (ok (found pvc)) = pure tt
  create_pvc team name storage_class access_mode size (ok missing) = do
    qty ← explain ("parsing storage size " <> quote size) (lift (env.parse_quantity size))
    meta ← lift (env.set_controller_reference team (named team name))
    write env λ w. env.pvcs.create w (record {
      meta = meta;
      access_mode = access_mode;
      storage_class = storage_class;
      storage = qty;
    })

  unfoldable pub ensure_pvc : String → String → String → String → Action env (Unit {0})
  unfolding create_pvc
  ensure_pvc name storage_class access_mode size = do
    team ← gets (λ s. s.team)
    existing ← gets (λ s. env.pvcs.get s.world team.meta.namespace name)
    create_pvc team name storage_class access_mode size (found_or_missing existing)

  create_job : AgentTeam → String → PodSpec → Result (Found Job) → Action env (Unit {0})
  create_job team name template (err e) = raise e
  create_job team name template (ok (found job)) = pure tt
  create_job team name template (ok missing) = do
    meta ← lift (env.set_controller_reference team (named team name))
    write env λ w. env.jobs.create w (record {
      meta = meta;
      backoff_limit = some backoff_limit;
      template = template;
      succeeded = 0;
      failed = 0;
    })

  ensure_job : String → (AgentTeam → PodSpec) → Action env (Unit {0})
  unfolding create_job
  ensure_job name template = do
    team ← gets (λ s. s.team)
    existing ← gets (λ s. env.jobs.get s.world team.meta.namespace name)
    create_job team name (template team) (found_or_missing existing)

  -- The caller has seen that the team has a repository.
  unfoldable pub ensure_init_job : RepositorySpec → Action env (Unit {0})
  unfolding ensure_job
  ensure_init_job repo = do
    team ← gets (λ s. s.team)
    ensure_job (init_job_name team) (λ t. init_job_pod reconciler t repo)

  unfoldable pub ensure_push_branch_job : RepositorySpec → String → Action env (Unit {0})
  unfolding ensure_job
  ensure_push_branch_job repo consolidated_branch = do
    team ← gets (λ s. s.team)
    ensure_job (push_branch_job_name team) (λ t. push_job_pod reconciler t repo consolidated_branch)

pub data JobStatus : Type 0 where
  completed failed unfinished : JobStatus

abbrev limit_of : Option ℕ → ℕ
limit_of none = backoff_limit
limit_of (some limit) = limit

unfoldable pub job_status : Job → JobStatus
job_status job =
    if ltb 0 job.succeeded
    then completed
    else if leb (limit_of job.backoff_limit) job.failed
    then failed
    else unfinished

-- A job that is not there is unfinished.
abbrev pub status_of_get : Result (Found Job) → Result JobStatus
status_of_get (err e) = err e
status_of_get (ok missing) = ok unfinished
status_of_get (ok (found job)) = ok (job_status job)

unfoldable pub check_job_status : (env : Env) → String → Action env JobStatus
check_job_status env job_name s =
    (status_of_get (found_or_missing (env.jobs.get s.world s.team.meta.namespace job_name)), s)
