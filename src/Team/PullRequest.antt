-- ===== src/Team/PullRequest.antt =====
-- Pull Request Creation of agentteam_controller.go: executeCreatePR, readGitHubToken, renderPRTitle,
-- buildPRBody and prBranches.
pub mod Frame
pub mod Outcome
use kagents.Prelude.{
  ℕ, String, Bool, false, Option, none, some, List, [], ◌∷◌, ◌==◌, ◌<>◌, Dict, lookup, join,
  show_nat, trim_space, if◌then◌else◌,
}
use kagents.Result.{Result, ok, err, other}
use kagents.Exec.{Exec, gets, pure, raise, lift, attempt, explain, ◌>>=◌, ◌>>◌}
use kagents.Api.Spec.{RepositorySpec, LifecycleSpec, PullRequestSpec}
use kagents.Api.Status.{AgentTeamStatus, TaskSummary, TeammateStatus, PullRequestStatus}
use kagents.Api.Resources.{AgentTeam}
use kagents.Cluster.Objects.{Secret}
use kagents.GitHub.{
  Client, ClientOption, PullRequest, PullRequestRequest, new_client, with_base_url,
  create_pull_request, request_reviewers, add_labels,
}
use kagents.GitHub.Repo.{parse_repo}
use kagents.Team.Names.{or_default}
use kagents.Team.Runtime.{Env, Pass, Action, in_world, change_status, record_event}

abbrev pub default_base_branch : String
default_base_branch = "main"

abbrev default_pr_title_template : String
default_pr_title_template = "claude-teams: {{.TeamName}}"

abbrev pub pull_request_of : Option LifecycleSpec → Option PullRequestSpec
pull_request_of none = none
pull_request_of (some lifecycle) = lifecycle.pull_request

abbrev title_of : Option PullRequestSpec → String
title_of none = ""
title_of (some pr) = pr.title_template

abbrev title_template : Option LifecycleSpec → String
title_template none = default_pr_title_template
title_template (some lifecycle) =
    or_default lifecycle.pr_title_template
      (or_default (title_of lifecycle.pull_request) default_pr_title_template)

abbrev branch_of : Option RepositorySpec → String
branch_of none = ""
branch_of (some repo) = repo.branch

abbrev target_of : Option PullRequestSpec → String
target_of none = ""
target_of (some pr) = pr.target_branch

-- The head and the base.
unfoldable pub pr_branches : AgentTeam → String × String
pr_branches team = (
  or_default (or_default team.status.consolidated_branch (branch_of team.spec.repository))
      default_base_branch,
  or_default (target_of (pull_request_of team.spec.lifecycle)) default_base_branch,
)

tasks_part : Option TaskSummary → String
tasks_part none = ""
tasks_part (some tasks) =
    "## Tasks\n\n- Completed: "
    <> show_nat tasks.completed
    <> "\n- Total: "
    <> show_nat tasks.total
    <> "\n\n"

teammate_lines : List TeammateStatus → String
teammate_lines [] = ""
teammate_lines (tm ∷ rest) =
    "- `"
    <> tm.name
    <> "` — phase="
    <> tm.phase
    <> ", tasksCompleted="
    <> show_nat tm.tasks_completed
    <> ", restarts="
    <> show_nat tm.restart_count
    <> "\n"
    <> teammate_lines rest

teammates_part : List TeammateStatus → String
unfolding teammate_lines
teammates_part [] = ""
teammates_part (tm ∷ rest) = "## Teammates\n\n" <> teammate_lines (tm ∷ rest) <> "\n"

unfoldable pub build_pr_body : AgentTeam → String
unfolding tasks_part teammates_part
build_pr_body team =
    "Automated pull request from Claude Agent Teams.\n\n"
    <> "**Team:** `"
    <> team.meta.namespace
    <> "/"
    <> team.meta.name
    <> "`\n\n"
    <> tasks_part team.status.tasks
    <> teammates_part team.status.teammates
    <> (if team.status.estimated_cost == ""
        then ""
        else "**Estimated cost:** $" <> team.status.estimated_cost <> "\n\n")
    <> "---\n"
    <> "Generated by [kagents](https://github.com/amcheste/kagents).\n"

-- The repository of the team if it has a URL.
abbrev pub repository_with_url : Option RepositorySpec → Option RepositorySpec
repository_with_url none = none
repository_with_url (some repo) = if repo.url == "" then none else some repo

abbrev pub token_secret_of : Option LifecycleSpec → String
token_secret_of none = ""
token_secret_of (some lifecycle) = lifecycle.github_token_secret

missing_token : String → Result String
missing_token name = err (other ("secret " <> name <> " is missing key GITHUB_TOKEN"))

token_in : String → Option String → Result String
unfolding missing_token
token_in name none = missing_token name
token_in name (some token) = if token == "" then missing_token name else ok (trim_space token)

-- A rendered text without the white space around it.
abbrev pub trimmed : Result String → Result String
trimmed (ok text) = ok (trim_space text)
trimmed (err e) = err e

module _ (env : Env) where
  open env use {World}

  unfoldable pub render_pr_title : AgentTeam → Result String
  render_pr_title team =
      trimmed (env.render (title_template team.spec.lifecycle) team.meta.name team.meta.namespace)

  -- r.Get of a secret.
  get_secret : String → String → Action env Secret
  get_secret namespace name s = (env.secrets.get s.world namespace name, s)

  unfoldable pub read_github_token : String → Action env String
  unfolding get_secret token_in
  read_github_token name = do
    team ← gets (λ s. s.team)
    secret ← explain ("reading GitHub token secret " <> name) (get_secret team.meta.namespace name)
    lift (token_in name (lookup "GITHUB_TOKEN" secret.entries))

  pub github_client : String → Client
  github_client token = new_client token (
      if env.reconciler.github_base_url == ""
      then []
      else with_base_url env.reconciler.github_base_url ∷ [])

  pub pr_request : AgentTeam → String → PullRequestRequest
  pr_request team title = record {
    title = title;
    body = build_pr_body team;
    head = (pr_branches team).0;
    base = (pr_branches team).1;
    draft = false;
  }

  -- Reviewers and labels, whose errors are only logged.
  pub decorate :
      Client → String × String → PullRequest → Option PullRequestSpec → Action env (Unit {0})
  decorate c names pr none = pure tt
  decorate c names pr (some spec) = do
    attempt (in_world env (request_reviewers env.github c names.0 names.1 pr.number spec.reviewers))
    attempt (in_world env (add_labels env.github c names.0 names.1 pr.number spec.labels))
    pure tt

  -- What follows the creation.
  record_pr : Client → String × String → PullRequest → Action env (Unit {0})
  unfolding decorate
  record_pr c names pr = do
    change_status env
        λ st. record st { pull_request = some (record { url = pr.html_url; state = pr.state }) }
    record_event env "Normal" "PullRequestCreated" ("Opened PR " <> pr.html_url)
    team ← gets (λ s. s.team)
    decorate c names pr (pull_request_of team.spec.lifecycle)

  -- The pull request, and what it takes to add to it.
  pub request_pr : RepositorySpec → String → Action env (Client × (String × String) × PullRequest)
  unfolding github_client pr_request
  request_pr repo secret = do
    names ← explain "parsing repo URL" (lift (parse_repo repo.url))
    token ← read_github_token secret
    team ← gets (λ s. s.team)
    title ← explain "rendering PR title" (lift (render_pr_title team))
    pr ← explain "creating pull request" (
        in_world env (
          create_pull_request env.github (github_client token) names.0 names.1
            (pr_request team title)))
    pure (github_client token, names, pr)

  open_pr : RepositorySpec → String → Action env (Unit {0})
  unfolding request_pr record_pr
  open_pr repo secret = do (c, names, pr) ← request_pr repo secret; record_pr c names pr

  with_repository : Option RepositorySpec → Action env (Unit {0})
  unfolding open_pr
  with_repository none s = raise (other "create-pr requires spec.repository.url") s
  with_repository (some repo) s =
      let secret = token_secret_of s.team.spec.lifecycle in
      if secret == ""
      then raise (other "create-pr requires spec.lifecycle.githubTokenSecret") s
      else open_pr repo secret s

  unfoldable pub execute_create_pr : Action env (Unit {0})
  unfolding with_repository
  execute_create_pr s = with_repository (repository_with_url s.team.spec.repository) s
