-- ===== src/Team/PullRequest/Outcome.antt =====
-- What executeCreatePR leaves behind, on success and on an error.
use kagents.Prelude.{
  ◌≡◌, refl, sym, subst, ap, ◌∙◌, ◌⊎◌, inl, inr, String, Option, none, some, ◌==◌, ◌<>◌, Bool-cases,
  arith,
}
use kagents.Result.{Result, Error, ok, err, ok_inj, Result-cases}
use kagents.Exec.{continue, gets, lift, pure, raise, attempt, explain, ◌>>=◌}
use kagents.Exec.Returns.{>>=-ok, relabel-ok}
use kagents.Api.Spec.{RepositorySpec, PullRequestSpec}
use kagents.Api.Status.{PullRequestStatus}
use kagents.GitHub.{Client, PullRequest}
use kagents.GitHub.Answers.{IsAnswered, pull_request_post, create_pull_request-ok}
use kagents.GitHub.Repo.{parse_repo}
use kagents.Team.Runtime.{Env, Pass, in_world, change_status, record_event, emit}
use kagents.Team.Steps.{record_event-IsUntouched}
use kagents.Team.PullRequest.{
  decorate, record_pr, request_pr, open_pr, with_repository, execute_create_pr, token_secret_of,
  repository_with_url, pull_request_of, pr_request, github_client, read_github_token,
  render_pr_title, get_secret,
}
use kagents.Team.PullRequest.Frame.{decorate-IsUntouched, request_pr-IsUntouched}

module _ (env : Env) where
  open env use {World}

  -- With the token of the secret, GitHub was asked in the cluster of `s` to open the pull request of the
  -- team, with its rendered title, in the repository of the URL; and its answer stands for `pr`.
  pub record IsCreated (s : Pass World env.float.F) (url : String) (pr : PullRequest) : Type 0 where
    pub names : String × String
    pub token : String
    pub title : String
    pub parsed : parse_repo url ≡ ok names
    pub authorized : (read_github_token env (token_secret_of s.team.spec.lifecycle) s).0 ≡ ok token
    pub rendered : render_pr_title env s.team ≡ ok title
    pub answered :
        IsAnswered env.github s.world
          (pull_request_post env.github
            (github_client env token)
            names.0
            names.1
            (pr_request env s.team title))
          pr

  read_github_token-same :
      (name : String) (s : Pass World env.float.F) → (read_github_token env name s).1 ≡ s
  unfolding read_github_token get_secret gets lift explain ◌>>=◌
  read_github_token-same name s =
      elim (Result-cases (env.secrets.get s.world s.team.meta.namespace name)) [
        | inl (secret, got) ↦ rw got refl
        | inr (e, failed) ↦ rw failed refl
      ]

  request_pr-IsCreated :
      (repo : RepositorySpec) (s : Pass World env.float.F)
      (found : Client × (String × String) × PullRequest)
      → (request_pr env repo (token_secret_of s.team.spec.lifecycle) s).0 ≡ ok found
      → IsCreated s repo.url found.2
  unfolding request_pr lift pure in_world gets explain
  request_pr-IsCreated repo s found h =
      let secret = token_secret_of s.team.spec.lifecycle in
      let (names, parsed, h1) = >>=-ok _ _ s h in
      let (token, read, h2) = >>=-ok _ _ s h1 in
      let (team, got, h3) = >>=-ok _ _ _ (rw (read_github_token-same secret s) at h2) in
      let (title, rendered, h4) = >>=-ok _ _ _ h3 in
      let (pr, made, done) = >>=-ok _ _ _ h4 in
      let same = sym (ok_inj got) in
      subst (λ x. IsCreated s repo.url x.2) (ok_inj done)
        (record {
          names = names;
          token = token;
          title = title;
          parsed = relabel-ok _ _ parsed;
          authorized = read;
          rendered = subst (λ x. render_pr_title env x ≡ ok title) same (relabel-ok _ _ rendered);
          answered =
              subst
                (λ x.
                  IsAnswered env.github s.world
                    (pull_request_post env.github (github_client env token) names.0 names.1
                      (pr_request env x title))
                    pr)
                same (create_pull_request-ok env.github _ _ _ _ s.world (relabel-ok _ _ made));
        })

  decorate-ok :
      (c : Client) (names : String × String) (pr : PullRequest) (spec : Option PullRequestSpec)
      (s : Pass World env.float.F)
      → (decorate env c names pr spec s).0 ≡ ok tt
  unfolding decorate attempt pure ◌>>=◌
  decorate-ok c names pr none s = refl
  decorate-ok c names pr (some spec) s = refl

  abbrev recorded : PullRequest → Option PullRequestStatus
  recorded pr = some (record { url = pr.html_url; state = pr.state })

  record_event-ok :
      (event_type reason message : String) (s : Pass World env.float.F)
      → (record_event env event_type reason message s).0 ≡ ok tt
  unfolding record_event emit
  record_event-ok event_type reason message s = ground arith

  record_pr-outcome :
      (c : Client) (names : String × String) (pr : PullRequest) (s : Pass World env.float.F)
      → ((record_pr env c names pr s).0 ≡ ok tt)
        × ((record_pr env c names pr s).1.team.status.pull_request ≡ recorded pr)
  unfolding record_pr change_status gets ◌>>=◌
  record_pr-outcome c names pr s =
      let s1 : Pass World env.float.F = record s {
        team = record s.team { status = record s.team.status { pull_request = recorded pr } };
      } in
      let s2 =
        (record_event env "Normal" "PullRequestCreated" ("Opened PR " <> pr.html_url) s1).1 in
      let spec = pull_request_of s2.team.spec.lifecycle in
      rw (record_event-ok "Normal" "PullRequestCreated" ("Opened PR " <> pr.html_url) s1) (
        decorate-ok c names pr spec s2,
        ap (λ team. team.status.pull_request)
            (((decorate-IsUntouched env c names pr spec).run s2).0
              ∙ ((record_event-IsUntouched env _ _ _).run s1).0),
      )

  -- Success, with the pull request recorded, or an error with the team in memory as it was.
  abbrev pub IsOutcome :
      Option RepositorySpec
      → Pass World env.float.F
      → Result (Unit {0}) × Pass World env.float.F
      → Type 0
  IsOutcome repository s (r, t) =
      ((r ≡ ok tt)
        × ((repo : RepositorySpec) × (pr : PullRequest) × (repository ≡ some repo)
            × IsCreated s repo.url pr
            × (t.team.status.pull_request ≡ some (record { url = pr.html_url; state = pr.state }))))
      ⊎ ((e : Error) × (r ≡ err e) × (t.team ≡ s.team))

  after_request :
      (repo : RepositorySpec) (s t : Pass World env.float.F)
      (r : Result (Client × (String × String) × PullRequest))
      → t.team ≡ s.team
      → ((found : Client × (String × String) × PullRequest)
          → r ≡ ok found
          → IsCreated s repo.url found.2)
      → IsOutcome (some repo) s (continue r (λ (c, names, pr). record_pr env c names pr) t)
  after_request repo s t (err e) same made = inr (e, refl, same)
  after_request repo s t (ok found) same made =
      let (done, written) = record_pr-outcome found.0 found.1 found.2 t in
      inl (done, (repo, found.2, refl, made found refl, written))

  open_pr-IsOutcome :
      (repo : RepositorySpec) (s : Pass World env.float.F)
      → IsOutcome (some repo) s (open_pr env repo (token_secret_of s.team.spec.lifecycle) s)
  unfolding open_pr ◌>>=◌
  open_pr-IsOutcome repo s =
      let secret = token_secret_of s.team.spec.lifecycle in
      after_request repo s (request_pr env repo secret s).1 (request_pr env repo secret s).0
        ((request_pr-IsUntouched env repo secret).run s).0 (request_pr-IsCreated repo s)

  with_repository-IsOutcome :
      (repository : Option RepositorySpec) (s : Pass World env.float.F)
      → IsOutcome repository s (with_repository env repository s)
  unfolding with_repository raise
  with_repository-IsOutcome none s = inr (_, refl, refl)
  with_repository-IsOutcome (some repo) s =
      elim (Bool-cases (token_secret_of s.team.spec.lifecycle == "")) [
        | inl unset ↦ rw unset (inr (_, refl, refl))
        | inr set ↦ rw set (open_pr-IsOutcome repo s)
      ]

  repository_with_url-some :
      (repository : Option RepositorySpec) {repo : RepositorySpec}
      → repository_with_url repository ≡ some repo
      → repository ≡ some repo
  repository_with_url-some none h = h
  repository_with_url-some (some repo) h = ground arith

  -- executeCreatePR returns nil only where it has asked GitHub, with the token of the secret, to open a
  -- pull request with the rendered title in the repository that ParseRepo reads from the team's URL, and
  -- the answer had a code below 400; its body is decoded to a pull request (the zero one where it is
  -- empty), whose URL and state the team's status then records, whatever becomes of its reviewers and
  -- labels. An error leaves the team in memory as it was.
  pub execute_create_pr-IsOutcome :
      (s : Pass World env.float.F) → IsOutcome s.team.spec.repository s (execute_create_pr env s)
  unfolding execute_create_pr
  execute_create_pr-IsOutcome s =
      elim (with_repository-IsOutcome (repository_with_url s.team.spec.repository) s) [
        | inl (done, (repo, pr, has_url, made, written)) ↦
            inl (done, (repo, pr, repository_with_url-some _ has_url, made, written))
        | inr failed ↦ inr failed
      ]
