-- ===== src/Api/Spec.antt =====
-- The specification types of api/v1alpha1/agentteam_types.go. An optional pointer is an `Option`,
-- an optional string that is left out is "". An int32 that the CRD validation keeps at 0 or above
-- is a native number.
use kagents.Prelude.{ℕ, String, Bool, Option, List}

-- corev1.ResourceRequirements: quantities by resource name, which the operator only hands on.
pub record ResourceRequirements : Type 0 where
  pub limits : List (String × String)
  pub requests : List (String × String)

pub record RepositorySpec : Type 0 where
  pub url : String
  pub branch : String
  pub worktree_strategy : String
  pub credentials_secret : String

pub record AuthSpec : Type 0 where
  pub api_key_secret : String
  pub oauth_secret : String

pub record SkillSource : Type 0 where
  pub config_map : String
  pub oci : String

pub record SkillSpec : Type 0 where
  pub name : String
  pub source : SkillSource

pub record McpServerSpec : Type 0 where
  pub name : String
  pub url : String
  pub credentials_secret : String

pub record LeadSpec : Type 0 where
  pub model : String
  pub prompt : String
  pub permission_mode : String
  pub skills : List SkillSpec
  pub mcp_servers : List McpServerSpec
  pub resources : ResourceRequirements

pub record WorkspaceInputSpec : Type 0 where
  pub config_map : String
  pub pvc : String
  pub mount_path : String

pub record WorkspaceOutputSpec : Type 0 where
  pub pvc : String
  pub storage_class : String
  pub size : String
  pub mount_path : String

pub record WorkspaceSpec : Type 0 where
  pub inputs : List WorkspaceInputSpec
  pub output : Option WorkspaceOutputSpec

pub record ApprovalGateSpec : Type 0 where
  pub event : String
  pub channel : String
  pub webhook_url : String

pub record OutputSpec : Type 0 where
  pub path : String
  pub description : String

pub record InputSpec : Type 0 where
  pub from : String
  pub artifact : String
  pub mount_path : String

pub record ScopeSpec : Type 0 where
  pub include_paths : List String
  pub exclude_paths : List String

pub record TeammateSpec : Type 0 where
  pub name : String
  pub model : String
  pub prompt : String
  pub scope : Option ScopeSpec
  pub depends_on : List String
  pub outputs : List OutputSpec
  pub inputs : List InputSpec
  pub skills : List SkillSpec
  pub mcp_servers : List McpServerSpec
  pub resources : ResourceRequirements

pub record StageSpec : Type 0 where
  pub name : String
  pub teammates : List String
  pub depends_on : List String
  pub fan : String
  pub approval_required : Bool

pub record PipelineSpec : Type 0 where
  pub stages : List StageSpec

pub record BeadsSpec : Type 0 where
  pub enabled : Bool
  pub dolt_server_service : String
  pub dolt_server_port : ℕ

pub record CoordinationSpec : Type 0 where
  pub mailbox_backend : String
  pub task_backend : String
  pub beads : Option BeadsSpec

pub record DeliveryTarget : Type 0 where
  pub type : String
  pub artifact_path : String
  pub message : String
  pub url : String
  pub channel : String
  pub to : List String
  pub subject : String
  pub attachment_path : String
  pub folder : String
  pub credentials_secret : String

pub record PullRequestSpec : Type 0 where
  pub target_branch : String
  pub title_template : String
  pub reviewers : List String
  pub labels : List String

pub record LifecycleSpec : Type 0 where
  pub timeout : String
  pub budget_limit : Option String
  pub on_complete : String
  pub delivery : List DeliveryTarget
  pub pull_request : Option PullRequestSpec
  pub approval_gates : List ApprovalGateSpec
  pub max_restarts : Option ℕ
  pub github_token_secret : String
  pub pr_title_template : String
  pub git_credentials_secret : String
  pub consolidated_branch_template : String

pub record QualityGateSpec : Type 0 where
  pub require_tests : Bool
  pub require_lint : Bool
  pub validation_script : String

pub record MetricsSpec : Type 0 where
  pub enabled : Bool
  pub port : ℕ

pub record WebhookSpec : Type 0 where
  pub url : String
  pub events : List String

pub record ObservabilitySpec : Type 0 where
  pub metrics : Option MetricsSpec
  pub log_level : String
  pub webhook : Option WebhookSpec

pub record AgentTeamSpec : Type 0 where
  pub repository : Option RepositorySpec
  pub workspace : Option WorkspaceSpec
  pub auth : AuthSpec
  pub lead : LeadSpec
  pub teammates : List TeammateSpec
  pub coordination : Option CoordinationSpec
  pub lifecycle : Option LifecycleSpec
  pub quality_gates : Option QualityGateSpec
  pub observability : Option ObservabilitySpec
  pub pipeline : Option PipelineSpec
  pub harness : String
  pub image_pull_secrets : List String  -- the names of the references
