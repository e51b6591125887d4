-- ===== src/Tests/Provisioning.antt =====
-- A platform that serves the Service of a cluster and keeps what is patched, and the runs of
-- `Reconcile` on a cluster there.
use cluster_api_provider_kub.Prelude.{[], ◌∷◌, some, ◌==◌, ◌&&◌, if◌then◌else◌}
use cluster_api_provider_kub.Go.{Result, ok, err}
use cluster_api_provider_kub.Kube.{Service, NamespacedName}
use cluster_api_provider_kub.Api.V1alpha3.{KubernetesCluster}
use cluster_api_provider_kub.Platform.{Log, Platform, Call, create_service, patch_cluster}
use cluster_api_provider_kub.Controllers.Cluster.Creation.{Served}
use cluster_api_provider_kub.Controllers.Machine.Calls.Grows.{Grows}
use cluster_api_provider_kub.Tests.Fixtures.{new_cluster, cluster, empty_platform, missing}

-- The cluster as it was last patched.
abbrev last_patched : Log → Result KubernetesCluster
last_patched [] = ok new_cluster
last_patched (patch_cluster k ∷ log) = ok k
last_patched (_ ∷ log) = last_patched log

-- A Service as the API server keeps it, with an IP.
abbrev with_ip : Service → Service
with_ip s = record s {
  spec = record (s.spec) {
    cluster_ip = if s.spec.cluster_ip == "" then "10.0.0.1" else s.spec.cluster_ip;
  };
}

abbrev sent_at : NamespacedName → Call → Result Service
sent_at key (create_service s) =
    if s.meta.namespace == key.namespace && s.meta.name == key.name then ok (with_ip s) else missing
sent_at key _ = missing

abbrev or_else : Result Service → Result Service → Result Service
or_else (ok s) r = ok s
or_else (err e) r = r

abbrev served_at : NamespacedName → Log → Result Service
served_at key [] = missing
served_at key (call ∷ log) = or_else (served_at key log) (sent_at key call)

abbrev provisioning_platform : Platform
provisioning_platform = record empty_platform {
  kubernetes_cluster = λ log key. last_patched log;
  owner_cluster = λ log m. ok (some cluster);
  service = λ log key. served_at key log;
}

abbrev c : NamespacedName
c = record { namespace = "ns"; name = "c" }
