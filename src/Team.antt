-- ===== src/Team.antt =====
-- The AgentTeam reconciler, internal/controller/agentteam_controller.go.
pub mod Names
pub mod Conditions
pub mod Order
pub mod Artifacts
pub mod Restarts
pub mod Pipeline
pub mod Runtime
pub mod Steps
pub mod Spending
pub mod Rbac
pub mod Pod
pub mod Provision
pub mod Agents
pub mod Sync
pub mod Failures
pub mod PullRequest
pub mod Finish
pub mod Phases
