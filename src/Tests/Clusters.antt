-- ===== src/Tests/Clusters.antt =====
-- The theorems on KubernetesClusters, watches and conversions at concrete inputs.
use cluster_api_provider_kub.Prelude.{[], ◌≡◌, refl, true, false}
use cluster_api_provider_kub.Api.V1alpha3.{is_zero}
use cluster_api_provider_kub.Controllers.Cluster.{
  reconcile_phase, reconcile_normal, add_cluster_finalizers, service_key,
}
use cluster_api_provider_kub.Controllers.Cluster.Phase.{
  HasClusterPhase, reconcile_phase-HasClusterPhase,
}
use cluster_api_provider_kub.Controllers.Cluster.Endpoint.{
  ReadyService, reconcile_normal-KeepsEndpoint, reconcile_normal-ReadyService,
}
use cluster_api_provider_kub.Tests.ClusterRuns.{cluster_runs}
use cluster_api_provider_kub.Tests.Fixtures.{serving_platform, served_cluster, cluster, new_cluster}

served_cluster_set : is_zero served_cluster.spec.control_plane_endpoint ≡ false
unfolding cluster_runs
served_cluster_set = refl

reconcile_normal-KeepsEndpoint_example :
    (reconcile_normal serving_platform cluster served_cluster []).object.spec.control_plane_endpoint
    ≡ served_cluster.spec.control_plane_endpoint
reconcile_normal-KeepsEndpoint_example =
    reconcile_normal-KeepsEndpoint serving_platform cluster served_cluster [] served_cluster_set

new_cluster_turns_ready :
    (reconcile_normal serving_platform cluster new_cluster []).object.status.ready ≡ true
unfolding cluster_runs
new_cluster_turns_ready = refl

reconcile_normal-ReadyService_example :
    ReadyService serving_platform
      (add_cluster_finalizers serving_platform new_cluster)
      (reconcile_normal serving_platform cluster new_cluster []).object
      []
      (service_key cluster new_cluster)
reconcile_normal-ReadyService_example =
    reconcile_normal-ReadyService serving_platform cluster new_cluster [] refl
      new_cluster_turns_ready

reconcile_phase-HasClusterPhase_example :
    HasClusterPhase new_cluster (reconcile_phase new_cluster).status.phase
    × (reconcile_phase new_cluster ≡ record new_cluster {
      status = record (new_cluster.status) { phase = (reconcile_phase new_cluster).status.phase };
    })
    × (reconcile_phase (reconcile_phase new_cluster) ≡ reconcile_phase new_cluster)
reconcile_phase-HasClusterPhase_example = reconcile_phase-HasClusterPhase new_cluster
