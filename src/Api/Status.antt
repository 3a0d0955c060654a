-- ===== src/Api/Status.antt =====
-- The status types of api/v1alpha1/agentteam_types.go. A time is in nanoseconds since the epoch.
use kagents.Prelude.{ℕ, String, Bool, Option, List}

abbrev pub Time : Type 0
Time = ℕ

-- metav1.Condition, the fields that the operator writes.
pub record Condition : Type 0 where
  pub type : String
  pub status : String
  pub reason : String
  pub message : String
  pub last_transition_time : Time

abbrev pub condition_true : String
condition_true = "True"

abbrev pub condition_false : String
condition_false = "False"

pub record AgentStatus : Type 0 where
  pub pod_name : String
  pub phase : String

-- The embedded AgentStatus is written out: `pod_name` and `phase`.
pub record TeammateStatus : Type 0 where
  pub pod_name : String
  pub phase : String
  pub name : String
  pub tasks_completed : ℕ
  pub tasks_claimed : ℕ
  pub pending_approval : String
  pub restart_count : ℕ

pub record DeliveryStatus : Type 0 where
  pub type : String
  pub target : String
  pub delivered_at : Time
  pub success : Bool
  pub error : String

pub record StageStatus : Type 0 where
  pub name : String
  pub phase : String
  pub started_at : Option Time
  pub completed_at : Option Time
  pub teammates_ready : String

pub record PipelineStatus : Type 0 where
  pub current_stage : String
  pub stages_completed : ℕ
  pub stages_total : ℕ
  pub stages : List StageStatus

pub record ArtifactStatus : Type 0 where
  pub name : String
  pub path : String
  pub produced_by : String
  pub produced_at : Time

pub record TaskSummary : Type 0 where
  pub total : ℕ
  pub completed : ℕ
  pub in_progress : ℕ
  pub pending : ℕ

pub record PullRequestStatus : Type 0 where
  pub url : String
  pub state : String

pub record AgentTeamStatus : Type 0 where
  pub phase : String
  pub started_at : Option Time
  pub completed_at : Option Time
  pub total_tokens_used : ℕ
  pub estimated_cost : String
  pub ready : String
  pub lead : Option AgentStatus
  pub teammates : List TeammateStatus
  pub tasks : Option TaskSummary
  pub pull_request : Option PullRequestStatus
  pub consolidated_branch : String
  pub artifacts : List ArtifactStatus
  pub pipeline : Option PipelineStatus
  pub delivery : List DeliveryStatus
  pub conditions : List Condition
