-- ===== src/Run/Child.antt =====
-- When a run makes or changes a team.
use kagents.Prelude.{◌≡◌, refl, ℕ, String, Bool, false}
use kagents.Result.{Result, Error, ok, err}
use kagents.Exec.{found_or_missing, continue, raise, pure, ◌>>=◌}
use kagents.Api.Resources.{AgentTeam, AgentTeamTemplate, AgentTeamRun}
use kagents.Cluster.{Collection}
use kagents.Run.{
  RunClient, RunPass, reconcile_with, after_get, reconcile_run, write_run, change_run,
}

-- The template was read and is Ready.
abbrev pub is_usable : Result AgentTeamTemplate → Bool
is_usable (ok tmpl) = tmpl.status.ready
is_usable (err e) = false

-- The client with another collection of teams.
abbrev pub with_teams : (client : RunClient) → Collection client.World AgentTeam → RunClient
with_teams client teams = record client { teams = teams }

module _ (client : RunClient) (teams : Collection client.World AgentTeam) where
  same_end :
      (r : Result (Unit {0})) (n : ℕ) (s : RunPass client) (t : RunPass (with_teams client teams))
      → s.world ≡ t.world
      → ((continue r (λ _. pure n) s).0 ≡ (continue r (λ _. pure n) t).0)
        × ((continue r (λ _. pure n) s).1.world ≡ (continue r (λ _. pure n) t).1.world)
  unfolding pure
  same_end (ok u) n s t h = (refl, h)
  same_end (err e) n s t h = (refl, h)

  reconcile_with-unusable :
      (r : Result AgentTeamTemplate) (w : client.World) (run : AgentTeamRun)
      → is_usable r ≡ false
      → let s = reconcile_with client (found_or_missing r) (record { world = w; run = run }) in
        let t =
          reconcile_with
            (with_teams client teams)
            (found_or_missing r)
            (record { world = w; run = run }) in
        (s.0 ≡ t.0) × (s.1.world ≡ t.1.world)
  unfolding reconcile_with raise ◌>>=◌ write_run change_run
  reconcile_with-unusable (err (Error.not_found m)) w run h = same_end _ 0 _ _ refl
  reconcile_with-unusable (err (Error.already_exists m)) w run h = (refl, refl)
  reconcile_with-unusable (err (Error.other m)) w run h = (refl, refl)
  reconcile_with-unusable (ok tmpl) w run h = rw h (same_end _ 15 _ _ refl)

-- Where the template of a run is missing, cannot be read or is not Ready, a pass of the run reads and
-- writes no team: its answer and the cluster after it are the same whatever the teams' collection
-- does.
pub reconcile_run-unusable :
    (client : RunClient) (teams : Collection client.World AgentTeam) (w : client.World)
    (namespace name : String) (run : AgentTeamRun)
    → client.get_run w namespace name ≡ ok run
    → is_usable (client.get_template w run.meta.namespace run.spec.template_ref.name) ≡ false
    → reconcile_run client w namespace name
      ≡ reconcile_run (with_teams client teams) w namespace name
unfolding reconcile_run after_get
reconcile_run-unusable client teams w namespace name run h u =
    let template = client.get_template w run.meta.namespace run.spec.template_ref.name in
    let (answer, world) = reconcile_with-unusable client teams template w run u in
    rw h (λ i. (answer i, world i))
