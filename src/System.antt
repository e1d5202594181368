-- ===== src/System.antt =====
-- The controllers together with the provider service and its cloud, as main.go puts them together.
pub mod Mirror
pub mod Orphans
pub mod Jobs
pub mod Provisioning
pub mod Completion
pub mod Backing
pub mod Readiness
pub mod Offering
