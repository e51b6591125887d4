-- ===== src/Tests.antt =====
-- Concrete inputs, runs of the definitions on them, and the theorems applied to them.
mod Fixtures
mod Laws
mod MachineRuns
mod ClusterRuns
mod Machines
mod Bootstrap
mod Clusters
mod Scripts
mod Conversions
mod Storage
mod Starting
mod Leaving
mod Settling
mod Provisioning
mod Calls
mod Lifecycle
mod Blocks
mod Commands
mod Mounts
mod HereDocuments
mod Processes
