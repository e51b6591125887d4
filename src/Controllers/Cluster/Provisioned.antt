-- ===== src/Controllers/Cluster/Provisioned.antt =====
-- The runs of `Reconcile` on a KubernetesCluster until it is provisioned, and from then on.
use cluster_api_provider_kub.Prelude.{ℕ, zero, suc, true, false, ◌≡◌, ◌∷◌}
use cluster_api_provider_kub.Go.{ok}
use cluster_api_provider_kub.Kube.{NamespacedName, Cluster}
use cluster_api_provider_kub.Api.V1alpha3.{is_zero, KubernetesCluster, KubernetesClusterPhase}
use cluster_api_provider_kub.Platform.{Platform}
use cluster_api_provider_kub.Platform.Lawful.{PortLaw, FreshLaw, ControllerLaw}
use cluster_api_provider_kub.Controllers.Cluster.{
  Log, reconcile, get_owner_cluster, get_kubernetes_cluster,
}
use cluster_api_provider_kub.Controllers.Metadata.{Resembles}
use cluster_api_provider_kub.Controllers.Cluster.Served.{Serves, ClusterAttached}
use cluster_api_provider_kub.Controllers.Cluster.Settled.{Serving}

-- The log after runs of `Reconcile`.
unfoldable pub reconciles : Platform → NamespacedName → Log → ℕ → Log
reconciles p req log zero = log
reconciles p req log (suc n) = (reconcile p req (reconciles p req log n)).1

-- The cluster that is read is provisioned: it is ready, in that phase, and its endpoint is set.
pub record IsProvisioned (p : Platform) (req : NamespacedName) (log : Log) : Type 0 where
  pub object : KubernetesCluster
  pub found : p.kubernetes_cluster log req ≡ ok object
  pub is_ready : object.status.ready ≡ true
  pub endpoint_set : is_zero object.spec.control_plane_endpoint ≡ false
  pub in_phase : object.status.phase ≡ KubernetesClusterPhase.provisioned

module _ (p : Platform) (serves : Serves p) (port : PortLaw p) (fresh : FreshLaw p)
    (controller : ControllerLaw p) (req : NamespacedName) (cluster : Cluster)
    (k : KubernetesCluster) (attached : ClusterAttached p req cluster k) where
  -- A cluster that is read, and whose Service has been created.
  record Read (log : Log) : Type 0 where
    object : KubernetesCluster
    like : Resembles k.meta object.meta
    found : p.kubernetes_cluster log req ≡ ok object
    serving : Serving p cluster object log

  abbrev read_calls : KubernetesCluster → Log → Log
  read_calls k' log = get_owner_cluster k'.meta ∷ get_kubernetes_cluster req ∷ log
