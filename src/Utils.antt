-- ===== src/Utils.antt =====
-- pkg/utils and pkg/pod: a Pod's quality of service, its conditions and the commands run in it.
pub mod Qos
pub mod PodStatus
pub mod Exec
