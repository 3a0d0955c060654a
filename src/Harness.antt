-- ===== src/Harness.antt =====
-- internal/harness: the one adapter, claude-code, and the selection of harnessFor in
-- agentteam_controller.go. The registry holds adapters by name; each is a function here.
use kagents.Prelude.{String, List, [], ◌∷◌, none, some, Dict, lookup, ◌==◌, if◌then◌else◌}
use kagents.Cluster.Objects.{EnvVar, value}

-- The operations of the interface that the operator calls. `protocol_env` takes the role, the
-- agent's name and the team's name.
pub record Harness : Type 0 where
  pub name : String
  pub default_image : String
  pub protocol_env : String → String → String → List EnvVar
  pub models : List String

abbrev pub default_harness : String
default_harness = "claude-code"

abbrev pub claude_code_runner_image : String
claude_code_runner_image = "ghcr.io/amcheste/claude-code-runner:latest"

unfoldable pub claude_code : Harness
claude_code = record {
  name = default_harness;
  default_image = claude_code_runner_image;
  protocol_env = λ role agent_name team_name.
      record { name = "CLAUDE_CODE_EXPERIMENTAL_AGENT_TEAMS"; source = value "1" }
      ∷ record { name = "CLAUDE_CODE_TEAM_NAME"; source = value team_name }
      ∷ record { name = "CLAUDE_CODE_AGENT_NAME"; source = value agent_name }
      ∷ record { name = "CLAUDE_CODE_ROLE"; source = value role }
      ∷ [];
  models = "opus" ∷ "sonnet" ∷ "haiku" ∷ [];
}

unfoldable pub default_registry : Dict Harness
default_registry = (default_harness, claude_code) ∷ []

-- The adapter of the name, or claude-code where there is none.
unfoldable pub harness_for : Dict Harness → String → Harness
harness_for registry name = elim (lookup (if name == "" then default_harness else name) registry) [
  | none ↦ claude_code
  | some h ↦ h
]
