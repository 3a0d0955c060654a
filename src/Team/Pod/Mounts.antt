-- ===== src/Team/Pod/Mounts.antt =====
-- Every mount of an agent pod names one of its volumes.
use kagents.Prelude.{
  ◌≡◌, ◌≢◌, refl, sym, ap, subst, inl, ℕ, suc, String, Bool, true, false, not, Option, none, some,
  List, [], ◌∷◌, ◌++◌, map, ◌==◌, ◌<>◌, All, All-append, In, In-append_left, In-append_right, arith,
  show_nat, is_some, if◌then◌else◌,
}
use kagents.Api.Spec.{SkillSpec, McpServerSpec, InputSpec, WorkspaceInputSpec, WorkspaceOutputSpec}
use kagents.Api.Resources.{AgentTeam}
use kagents.Cluster.Objects.{Volume, Container}
use kagents.Team.Names.{output_of}
use kagents.Team.Artifacts.{find_producer_output_path}
use kagents.Team.Runtime.{Reconciler}
use kagents.Team.Pod.Sections.{Agent, Parts, ◌<+>◌, pvc_volume, pvc_volume_read_only}
use kagents.Team.Pod.Volumes.{
  state_parts, repository_parts, output_parts, output_mount_path, workspace_input_volume,
  workspace_input_part, workspace_input_parts, inputs_of,
}
use kagents.Team.Pod.Skills.{
  skill_parts, all_skill_parts, pulls_skill, any_pulls, skill_auth_parts, mcp_parts,
}
use kagents.Team.Pod.Staging.{staged_input, staged_inputs, staging_parts}
use kagents.Team.Pod.{agent_parts, build_agent_pod}

abbrev pub names : List Volume → List String
names = map (λ v. v.name)

abbrev pub IsMounted : List String → Container → Type 0
IsMounted ns c = All (λ m. In m.name ns) c.volume_mounts

abbrev Covers : List String → Parts → Type 0
Covers ns p = All (λ m. In m.name ns) p.mounts × All (IsMounted ns) p.init_containers

abbrev Sub : List String → List String → Type 0
Sub xs ys = (n : String) → In n xs → In n ys

names-append : (xs ys : List Volume) → names (xs ++ ys) ≡ names xs ++ names ys
names-append [] ys = refl
names-append (x ∷ xs) ys = ap (λ l. x.name ∷ l) (names-append xs ys)

Covers-append : (ns : List String) (a b : Parts) → Covers ns a → Covers ns b → Covers ns (a <+> b)
Covers-append ns a b f g = (
  All-append _ a.mounts b.mounts f.0 g.0,
  All-append _ a.init_containers b.init_containers f.1 g.1,
)

-- Where the section's volumes are among `ns`, so is what it mounts.
abbrev IsClosed : List String → Parts → Type 0
IsClosed ns p = Sub (names p.volumes) ns → Covers ns p

module _ (ns : List String) where
  -- The first volumes, and those after them.
  first_of : (xs ys : List Volume) → Sub (names (xs ++ ys)) ns → Sub (names xs) ns
  first_of xs ys h n m =
      h n (subst (In n) (sym (names-append xs ys)) (In-append_left n (names xs) (names ys) m))

  rest_of : (xs ys : List Volume) → Sub (names (xs ++ ys)) ns → Sub (names ys) ns
  rest_of xs ys h n m =
      h n (subst (In n) (sym (names-append xs ys)) (In-append_right n (names xs) (names ys) m))

  append-IsClosed : (a b : Parts) → IsClosed ns a → IsClosed ns b → IsClosed ns (a <+> b)
  append-IsClosed a b f g h =
      Covers-append ns a b (f (first_of a.volumes b.volumes h)) (g (rest_of a.volumes b.volumes h))

  if-IsClosed :
      (b : Bool) (x y : Parts)
      → (b ≡ true → IsClosed ns x)
      → (b ≡ false → IsClosed ns y)
      → IsClosed ns (if b then x else y)
  if-IsClosed true x y f g = f refl
  if-IsClosed false x y f g = g refl

  state_parts-IsClosed : (team : AgentTeam) → IsClosed ns (state_parts team)
  unfolding state_parts pvc_volume
  state_parts-IsClosed team h = ((h "team-state" (inl refl), tt), tt)

  skill_auth_parts-IsClosed :
      (secrets : List String) (skills : List SkillSpec)
      → IsClosed ns (skill_auth_parts secrets skills)
  unfolding skill_auth_parts
  skill_auth_parts-IsClosed [] skills = λ h. (tt, tt)
  skill_auth_parts-IsClosed (s ∷ ss) skills =
      if-IsClosed (any_pulls skills) _ _ (λ _ h. (tt, tt)) (λ _ h. (tt, tt))

  repository_parts-IsClosed : (team : AgentTeam) → IsClosed ns (repository_parts team)
  unfolding repository_parts pvc_volume
  repository_parts-IsClosed team =
      if-IsClosed (is_some team.spec.repository) _ _ (λ _ h. ((h "repo" (inl refl), tt), tt))
        (λ _ h. (tt, tt))

  output_parts-IsClosed :
      (team : AgentTeam) (out : Option WorkspaceOutputSpec) → IsClosed ns (output_parts team out)
  unfolding output_parts pvc_volume
  output_parts-IsClosed team none h = (tt, tt)
  output_parts-IsClosed team (some out) h = ((h "workspace-output" (inl refl), tt), tt)

  module _ (name : String) (input : WorkspaceInputSpec) where
    if-IsClosed_part :
        (b : Bool) (x y : Option Volume)
        → IsClosed ns (workspace_input_part name input x)
        → IsClosed ns (workspace_input_part name input y)
        → IsClosed ns (workspace_input_part name input (if b then x else y))
    if-IsClosed_part true x y f g = f
    if-IsClosed_part false x y f g = g

    workspace_input_part-IsClosed :
        IsClosed ns (workspace_input_part name input (workspace_input_volume name input))
    unfolding workspace_input_part workspace_input_volume pvc_volume_read_only
    workspace_input_part-IsClosed =
        if-IsClosed_part (not (input.config_map == "")) _ _ (λ h. ((h name (inl refl), tt), tt))
          (if-IsClosed_part (not (input.pvc == "")) _ _ (λ h. ((h name (inl refl), tt), tt))
            (λ h. (tt, tt)))

  workspace_input_parts-IsClosed :
      (i : ℕ) (inputs : List WorkspaceInputSpec) → IsClosed ns (workspace_input_parts i inputs)
  unfolding workspace_input_parts
  workspace_input_parts-IsClosed i [] = λ h. (tt, tt)
  workspace_input_parts-IsClosed i (input ∷ inputs) =
      append-IsClosed _ _ (workspace_input_part-IsClosed ("workspace-input-" <> show_nat i) input)
        (workspace_input_parts-IsClosed (suc i) inputs)

  mcp_parts-IsClosed :
      (team : AgentTeam) (agent_name : String) (servers : List McpServerSpec)
      → IsClosed ns (mcp_parts team agent_name servers)
  unfolding mcp_parts
  mcp_parts-IsClosed team agent_name [] h = (tt, tt)
  mcp_parts-IsClosed team agent_name (server ∷ servers) h = ((h "mcp-config" (inl refl), tt), tt)

  staged_inputs-IsClosed :
      In "workspace-output" ns
      → (r : Reconciler) (team : AgentTeam) (path : String) (i : ℕ) (inputs : List InputSpec)
      → IsClosed ns (staged_inputs r team path i inputs)
  unfolding staged_inputs staged_input
  staged_inputs-IsClosed w r team path i [] = λ h. (tt, tt)
  staged_inputs-IsClosed w r team path i (input ∷ inputs) =
      append-IsClosed _ _
        (if-IsClosed (find_producer_output_path team.spec.teammates input.from input.artifact == "")
          _ _ (λ _ h. (tt, tt))
          (λ _ h. let v = h ("input-" <> show_nat i) (inl refl) in ((v, tt), ((w, (v, tt)), tt))))
        (staged_inputs-IsClosed w r team path (suc i) inputs)

  module _ (r : Reconciler) where
    skill_parts-IsClosed :
        (secrets : List String) (skill : SkillSpec)
        → (secrets ≢ [] → pulls_skill skill ≡ true → In "skill-auth" ns)
        → IsClosed ns (skill_parts r secrets skill)
    unfolding skill_parts
    skill_parts-IsClosed [] skill auth =
        if-IsClosed (not (skill.source.config_map == "")) _ _
          (λ _ h. ((h ("skill-" <> skill.name) (inl refl), tt), tt))
          λ _.
            if-IsClosed (not (skill.source.oci == "")) _ _
              (λ _ h. let v = h ("skill-" <> skill.name) (inl refl) in ((v, tt), ((v, tt), tt)))
              (λ _ h. (tt, tt))
    skill_parts-IsClosed (s ∷ ss) skill auth =
        if-IsClosed (not (skill.source.config_map == "")) _ _
          (λ _ h. ((h ("skill-" <> skill.name) (inl refl), tt), tt))
          λ no_map.
            if-IsClosed (not (skill.source.oci == "")) _ _
              (λ oci h.
                let v = h ("skill-" <> skill.name) (inl refl) in
                ((v, tt), ((v, (auth (λ e. cc) (ground arith), tt)), tt)))
              (λ _ h. (tt, tt))

    all_skill_parts-IsClosed :
        (secrets : List String) (skills : List SkillSpec)
        → (secrets ≢ [] → any_pulls skills ≡ true → In "skill-auth" ns)
        → IsClosed ns (all_skill_parts r secrets skills)
    unfolding all_skill_parts
    all_skill_parts-IsClosed secrets [] auth = λ h. (tt, tt)
    all_skill_parts-IsClosed secrets (skill ∷ skills) auth =
        append-IsClosed _ _
          (skill_parts-IsClosed secrets skill (λ given pulls. auth given (ground arith)))
          (all_skill_parts-IsClosed secrets skills (λ given pulls. auth given (ground arith)))

  skill_auth :
      (secrets : List String) (skills : List SkillSpec)
      → Sub (names (skill_auth_parts secrets skills).volumes) ns
      → secrets ≢ []
      → any_pulls skills ≡ true
      → In "skill-auth" ns
  unfolding skill_auth_parts
  skill_auth [] skills h given pulls = absurd (given refl)
  skill_auth (s ∷ ss) skills h given pulls = h "skill-auth" (rw pulls (inl refl))

  staging_parts-IsClosed :
      (r : Reconciler) (team : AgentTeam) (inputs : List InputSpec)
      (out : Option WorkspaceOutputSpec)
      → Sub (names (output_parts team out).volumes) ns
      → IsClosed ns (staging_parts r team inputs out)
  unfolding staging_parts output_parts pvc_volume
  staging_parts-IsClosed r team inputs none given = λ h. (tt, tt)
  staging_parts-IsClosed r team inputs (some out) given =
      staged_inputs-IsClosed (given "workspace-output" (inl refl)) r team (output_mount_path out) 0
        inputs

  -- The skills mount what skill-auth declares, and the staged inputs what the output declares.
  sections-IsClosed :
      (state repo out inputs skills auth mcp staging : Parts)
      → IsClosed ns state
      → IsClosed ns repo
      → IsClosed ns out
      → IsClosed ns inputs
      → (Sub (names auth.volumes) ns → IsClosed ns skills)
      → IsClosed ns auth
      → IsClosed ns mcp
      → (Sub (names out.volumes) ns → IsClosed ns staging)
      → IsClosed ns (state <+> repo <+> out <+> inputs <+> skills <+> auth <+> mcp <+> staging)
  sections-IsClosed state repo out inputs skills auth mcp staging c1 c2 c3 c4 c5 c6 c7 c8 h =
      let h2 = rest_of state.volumes _ h in
      let h3 = rest_of repo.volumes _ h2 in
      let h4 = rest_of out.volumes _ h3 in
      let h5 = rest_of inputs.volumes _ h4 in
      let h6 = rest_of skills.volumes _ h5 in
      append-IsClosed state _ c1
        (append-IsClosed repo _ c2 (
          append-IsClosed out _ c3 (
            append-IsClosed inputs _ c4 (
              append-IsClosed skills _ (c5 (first_of auth.volumes _ h6)) (
                append-IsClosed auth _ c6
                  (append-IsClosed mcp staging c7 (c8 (first_of out.volumes _ h3))))))))
        h

  agent_parts-IsClosed :
      (r : Reconciler) (team : AgentTeam) (agent : Agent) → IsClosed ns (agent_parts r team agent)
  unfolding agent_parts
  agent_parts-IsClosed r team agent =
      sections-IsClosed (state_parts team) (repository_parts team)
        (output_parts team (output_of team.spec.workspace))
        (workspace_input_parts 0 (inputs_of team.spec.workspace))
        (all_skill_parts r team.spec.image_pull_secrets agent.skills)
        (skill_auth_parts team.spec.image_pull_secrets agent.skills)
        (mcp_parts team agent.name agent.mcp_servers)
        (staging_parts r team agent.inputs (output_of team.spec.workspace))
        (state_parts-IsClosed team) (repository_parts-IsClosed team)
        (output_parts-IsClosed team (output_of team.spec.workspace))
        (workspace_input_parts-IsClosed 0 (inputs_of team.spec.workspace))
        (λ h.
          all_skill_parts-IsClosed r team.spec.image_pull_secrets agent.skills
            (skill_auth team.spec.image_pull_secrets agent.skills h))
        (skill_auth_parts-IsClosed team.spec.image_pull_secrets agent.skills)
        (mcp_parts-IsClosed team agent.name agent.mcp_servers)
        (staging_parts-IsClosed r team agent.inputs (output_of team.spec.workspace))

-- Every mount of the agent's container and of its init containers names a volume of the pod that
-- buildAgentPod makes, whatever skills, inputs, MCP servers and volumes the team declares.
pub build_agent_pod-IsMounted :
    (r : Reconciler) (team : AgentTeam) (agent : Agent)
    → let spec = (build_agent_pod r team agent).spec in
      All (IsMounted (names spec.volumes)) (spec.init_containers ++ spec.containers)
unfolding build_agent_pod
build_agent_pod-IsMounted r team agent =
    let parts = agent_parts r team agent in
    let c = agent_parts-IsClosed (names parts.volumes) r team agent (λ n m. m) in
    All-append _ parts.init_containers _ c.1 (c.0, tt)
