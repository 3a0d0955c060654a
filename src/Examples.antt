-- ===== src/Examples.antt =====
-- Sample resources, and the theorems and tests at concrete inputs.
mod Data
mod Clusters
mod Specs
mod Statuses
mod Reconciles
mod Runs
mod Schedules
mod Triggers
mod Texts
mod Pulls
mod Deliveries
mod Views
mod Streams
mod Gauges
mod Histories
