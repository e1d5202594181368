-- ===== src/Examples.antt =====
-- The theorems at concrete inputs, on a host in memory beside the provider cloud.
mod Objects
mod Reconcilers
mod Cloud
mod Periods
mod Instances
mod Connections
mod Registering
mod Starting
mod Backing
mod Readiness
mod Copies
mod Scheming
mod Offering
