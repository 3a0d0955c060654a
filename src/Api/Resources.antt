-- ===== src/Api/Resources.antt =====
-- The resources with their metadata: api/v1alpha1/agentteam_types.go, template_types.go,
-- schedule_types.go and trigger_types.go. Of ObjectMeta the fields that the operator reads are kept.
use kagents.Prelude.{ℕ, String, Bool, Option, List, Dict}
use kagents.Api.Spec.{
  TeammateSpec, CoordinationSpec, LifecycleSpec, QualityGateSpec, RepositorySpec, WorkspaceSpec,
  AuthSpec, LeadSpec, AgentTeamSpec,
}
use kagents.Api.Status.{Time, Condition, AgentTeamStatus}

pub record ObjectMeta : Type 0 where
  pub name : String
  pub namespace : String
  pub labels : Dict String
  pub annotations : Dict String
  pub creation_timestamp : Time
  pub owner_references : List String  -- the names of the owners

pub record AgentTeam : Type 0 where
  pub meta : ObjectMeta
  pub spec : AgentTeamSpec
  pub status : AgentTeamStatus

pub record AgentTeamTemplateSpec : Type 0 where
  pub description : String
  pub teammates : List TeammateSpec
  pub coordination : Option CoordinationSpec
  pub lifecycle : Option LifecycleSpec
  pub quality_gates : Option QualityGateSpec

pub record AgentTeamTemplateStatus : Type 0 where
  pub ready : Bool
  pub conditions : List Condition

pub record AgentTeamTemplate : Type 0 where
  pub meta : ObjectMeta
  pub spec : AgentTeamTemplateSpec
  pub status : AgentTeamTemplateStatus

pub record TemplateReference : Type 0 where
  pub name : String

pub record AgentTeamRunSpec : Type 0 where
  pub template_ref : TemplateReference
  pub repository : Option RepositorySpec
  pub workspace : Option WorkspaceSpec
  pub auth : AuthSpec
  pub lead : LeadSpec
  pub lifecycle : Option LifecycleSpec

-- The status of a run is that of its team.
pub record AgentTeamRun : Type 0 where
  pub meta : ObjectMeta
  pub spec : AgentTeamRunSpec
  pub status : AgentTeamStatus

pub record AgentTeamScheduleSpec : Type 0 where
  pub schedule : String
  pub template_ref : TemplateReference
  pub auth : AuthSpec
  pub lead : LeadSpec
  pub repository : Option RepositorySpec
  pub workspace : Option WorkspaceSpec
  pub lifecycle : Option LifecycleSpec
  pub history_limit : ℕ

pub record ScheduledRunStatus : Type 0 where
  pub name : String
  pub scheduled_at : Time
  pub phase : String

pub record AgentTeamScheduleStatus : Type 0 where
  pub last_scheduled_at : Option Time
  pub next_scheduled_at : Option Time
  pub active_run : String
  pub runs : List ScheduledRunStatus

pub record AgentTeamSchedule : Type 0 where
  pub meta : ObjectMeta
  pub spec : AgentTeamScheduleSpec
  pub status : AgentTeamScheduleStatus
