-- ===== src/Examples/Pulls.antt =====
-- ParseRepo and the pull request of a team at concrete inputs.
use kagents.Prelude.{◌≡◌, refl, ℕ, String, some, lookup, trim_space}
use kagents.Result.{ok}
use kagents.Api.Spec.{RepositorySpec}
use kagents.Api.Resources.{AgentTeam}
use kagents.GitHub.Repo.{parse_repo, try_patterns}
use kagents.GitHub.Shapes.{IsUrl, IsShortNamed, IsCloneUrl}
use kagents.GitHub.CloneUrls.{parse_repo_exact}
use kagents.Exec.{◌>>=◌, explain, lift, gets, pure, raise}
use kagents.GitHub.{create_pull_request, call, decode_answer}
use kagents.Regexp.{find}
use kagents.Team.Runtime.{Pass, in_world, change_status, record_event}
use kagents.Team.PullRequest.{read_github_token, render_pr_title, execute_create_pr}
use kagents.Team.PullRequest.Outcome.{IsOutcome, execute_create_pr-IsOutcome}
use kagents.Examples.Data.{lifecycle}
use kagents.Examples.Clusters.{World, operator, running_team, pass}

parse_repo_example :
    ((owner repo : String)
      → parse_repo "https://github.com/amcheste/kagents.git\n" ≡ ok (owner, repo)
      → IsUrl IsShortNamed (trim_space "https://github.com/amcheste/kagents.git\n") owner repo)
    × ((owner repo : String)
        → IsCloneUrl (trim_space "https://github.com/amcheste/kagents.git\n") owner repo
        → (found : String × String) × (parse_repo "https://github.com/amcheste/kagents.git\n"
            ≡ ok found))
parse_repo_example = parse_repo_exact "https://github.com/amcheste/kagents.git\n"

parse_repo_runs :
    (parse_repo "https://github.com/amcheste/kagents.git\n" ≡ ok ("amcheste", "kagents"))
    × (parse_repo "git@github.com:amcheste/kagents" ≡ ok ("amcheste", "kagents"))
    × (parse_repo "http://host/a/b.c.git/" ≡ ok ("a", "b.c"))
unfolding parse_repo try_patterns find trim_space kagents.Prelude.after_prefix
parse_repo_runs = (refl, refl, refl)

abbrev repository : RepositorySpec
repository = record {
  url = "git@github.com:amcheste/kagents.git";
  branch = "main";
  worktree_strategy = "";
  credentials_secret = "";
}

abbrev published_team : AgentTeam
published_team = record running_team {
  spec = record running_team.spec {
    repository = some repository;
    lifecycle = some (record lifecycle { github_token_secret = "github" });
  };
}

abbrev published : Pass World ℕ
published = record (pass "Succeeded") { team = published_team }

execute_create_pr_example :
    IsOutcome operator (some repository) published (execute_create_pr operator published)
execute_create_pr_example = execute_create_pr-IsOutcome operator published

execute_create_pr_runs :
    (execute_create_pr operator published).1.team.status.pull_request
    ≡ some (record { url = "https://pr/7"; state = "open" })
unfolding execute_create_pr ◌>>=◌ explain lift parse_repo try_patterns trim_space find
    kagents.Prelude.after_prefix read_github_token gets lookup render_pr_title in_world
    create_pull_request call decode_answer pure change_status record_event kagents.Team.Runtime.emit
    raise
execute_create_pr_runs = refl
