-- ===== src/Team/PullRequest/Frame.antt =====
-- Opening a pull request changes nothing of the team in memory but the pull request in its status, and
-- writes no status; up to the creation it changes nothing.
use kagents.Prelude.{refl, String, Option, none, some, ◌==◌}
use kagents.Exec.Keeps.{explain-Keeps, attempt-Keeps}
use kagents.Api.Spec.{RepositorySpec, PullRequestSpec}
use kagents.GitHub.{Client, PullRequest}
use kagents.Team.Runtime.{Env}
use kagents.Team.Steps.{
  IsQuiet, IsUntouched, >>=-IsUntouched, >>=-IsQuiet, IsUntouched-IsQuiet, Quiet-branch,
  Untouched-refl, change_status-IsQuiet, record_event-IsUntouched, gets-IsUntouched,
  lift-IsUntouched, pure-IsUntouched, raise-IsUntouched, in_world-IsUntouched,
}
use kagents.Team.PullRequest.{
  get_secret, read_github_token, decorate, record_pr, request_pr, open_pr, with_repository,
  execute_create_pr, token_secret_of, repository_with_url,
}

module _ (env : Env) where
  get_secret-IsUntouched : (namespace name : String) → IsUntouched (get_secret env namespace name)
  unfolding get_secret
  get_secret-IsUntouched namespace name = record { run = Untouched-refl }

  read_github_token-IsUntouched : (name : String) → IsUntouched (read_github_token env name)
  unfolding read_github_token
  read_github_token-IsUntouched name = >>=-IsUntouched (gets-IsUntouched _) λ team.
      >>=-IsUntouched (explain-Keeps _ (get_secret-IsUntouched team.meta.namespace name))
        λ secret. lift-IsUntouched _

  pub decorate-IsUntouched :
      (c : Client) (names : String × String) (pr : PullRequest) (spec : Option PullRequestSpec)
      → IsUntouched (decorate env c names pr spec)
  unfolding decorate
  decorate-IsUntouched c names pr none = pure-IsUntouched _
  decorate-IsUntouched c names pr (some spec) =
      >>=-IsUntouched (attempt-Keeps (in_world-IsUntouched env _))
        λ _. >>=-IsUntouched (attempt-Keeps (in_world-IsUntouched env _)) λ _. pure-IsUntouched _

  pub request_pr-IsUntouched :
      (repo : RepositorySpec) (secret : String) → IsUntouched (request_pr env repo secret)
  unfolding request_pr
  request_pr-IsUntouched repo secret =
      >>=-IsUntouched (explain-Keeps _ (lift-IsUntouched _)) λ names.
        >>=-IsUntouched (read_github_token-IsUntouched secret) λ token.
          >>=-IsUntouched (gets-IsUntouched _) λ team.
            >>=-IsUntouched (explain-Keeps _ (lift-IsUntouched _)) λ title.
              >>=-IsUntouched (explain-Keeps _ (in_world-IsUntouched env _))
                λ pr. pure-IsUntouched _

  record_pr-IsQuiet :
      (c : Client) (names : String × String) (pr : PullRequest) → IsQuiet (record_pr env c names pr)
  unfolding record_pr
  record_pr-IsQuiet c names pr = >>=-IsQuiet (change_status-IsQuiet env _ (λ st. refl)) λ _.
      IsUntouched-IsQuiet (
        >>=-IsUntouched (record_event-IsUntouched env _ _ _)
          λ _. >>=-IsUntouched (gets-IsUntouched _) λ team. decorate-IsUntouched c names pr _)

  open_pr-IsQuiet : (repo : RepositorySpec) (secret : String) → IsQuiet (open_pr env repo secret)
  unfolding open_pr
  open_pr-IsQuiet repo secret =
      >>=-IsQuiet (IsUntouched-IsQuiet (request_pr-IsUntouched repo secret))
        λ (c, names, pr). record_pr-IsQuiet c names pr

  with_repository-IsQuiet : (repo : Option RepositorySpec) → IsQuiet (with_repository env repo)
  unfolding with_repository
  with_repository-IsQuiet none = record { run = (IsUntouched-IsQuiet (raise-IsUntouched _ _)).run }
  with_repository-IsQuiet (some repo) = record {
    run = λ s.
        Quiet-branch s (token_secret_of s.team.spec.lifecycle == "") _ _
          ((IsUntouched-IsQuiet (raise-IsUntouched _ _)).run s)
          ((open_pr-IsQuiet repo (token_secret_of s.team.spec.lifecycle)).run s);
  }

  pub execute_create_pr-IsQuiet : IsQuiet (execute_create_pr env)
  unfolding execute_create_pr
  execute_create_pr-IsQuiet = record {
    run = λ s. (with_repository-IsQuiet (repository_with_url s.team.spec.repository)).run s;
  }
