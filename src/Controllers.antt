-- ===== src/Controllers.antt =====
-- controllers/: the reconcilers of KubernetesMachines and KubernetesClusters.
pub mod Common
pub mod Metadata
pub mod Machine
pub mod Cluster
pub mod Watches
