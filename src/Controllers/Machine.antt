-- ===== src/Controllers/Machine.antt =====
-- controllers/kubernetesmachine_controller.go and kubernetesmachine_utils.go. The pod of a machine
-- (Names, Volumes, Claims, Container, MachinePod), its bootstrap data (Bootstrap), and the reconciler
-- (Normal, Delete, Reconcile).
pub mod Names
pub mod Volumes
pub mod Claims
pub mod Container
pub mod MachinePod
pub mod Bootstrap
pub mod Normal
pub mod Delete
pub mod Reconcile
pub mod Cases
pub mod Ready
pub mod Returns
pub mod Changes
pub mod History
pub mod Phase
pub mod Deletion
pub mod Release
pub mod KindContainer
pub mod Calls
pub mod Storage
pub mod KindQos
pub mod Deferred
pub mod Defaults
pub mod Secrets
pub mod Convergence
pub mod Lifecycle
pub mod Mounts
