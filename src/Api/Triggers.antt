-- ===== src/Api/Triggers.antt =====
-- api/v1alpha1/trigger_types.go.
use kagents.Prelude.{ℕ, String, Option, List}
use kagents.Api.Spec.{RepositorySpec, WorkspaceSpec, AuthSpec, LeadSpec, LifecycleSpec}
use kagents.Api.Status.{Time}
use kagents.Api.Resources.{ObjectMeta, TemplateReference}

pub record WebhookTriggerSpec : Type 0 where
  pub path : String
  pub secret : String

pub record TriggerSource : Type 0 where
  pub webhook : Option WebhookTriggerSpec

pub record PayloadInjectionSpec : Type 0 where
  pub mount_path : String

pub record AgentTeamTriggerSpec : Type 0 where
  pub trigger : TriggerSource
  pub template_ref : TemplateReference
  pub auth : AuthSpec
  pub lead : LeadSpec
  pub repository : Option RepositorySpec
  pub workspace : Option WorkspaceSpec
  pub lifecycle : Option LifecycleSpec
  pub payload_injection : Option PayloadInjectionSpec
  pub concurrency_policy : String

pub record TriggerRunStatus : Type 0 where
  pub name : String
  pub triggered_at : Time
  pub phase : String

pub record AgentTeamTriggerStatus : Type 0 where
  pub last_triggered_at : Option Time
  pub active_run : String
  pub total_runs : ℕ
  pub runs : List TriggerRunStatus

pub record AgentTeamTrigger : Type 0 where
  pub meta : ObjectMeta
  pub spec : AgentTeamTriggerSpec
  pub status : AgentTeamTriggerStatus
