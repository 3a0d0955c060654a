-- ===== src/Api.antt =====
-- The custom resources of api/v1alpha1: what a user writes (Spec), what the operator reports
-- (Status), and the resources with their metadata (Resources).
pub mod Spec
pub mod Status
pub mod Resources
pub mod Triggers
