-- ===== src/Controllers/Cluster/Served.antt =====
-- What the runs of `Reconcile` on a KubernetesCluster need, and how they get to `reconcileNormal`.
use cluster_api_provider_kub.Prelude.{true, false, ◌≡◌, arith, ◌∷◌, none, some, ap, ◌∙◌}
use cluster_api_provider_kub.Go.{ok, err, Error}
use cluster_api_provider_kub.Kube.{ObjectMeta, NamespacedName, Cluster, Service}
use cluster_api_provider_kub.Api.V1alpha3.{KubernetesCluster}
use cluster_api_provider_kub.Platform.{
  Platform, Log, patch_cluster, get_kubernetes_cluster, get_owner_cluster, create_service,
  get_service,
}
use cluster_api_provider_kub.Controllers.Metadata.{Resembles}
use cluster_api_provider_kub.Controllers.Cluster.Creation.{Served}
use cluster_api_provider_kub.Controllers.Cluster.{
  reconcile, reconcile_body, patch_deferred, reconcile_phase, with_object, cluster_answer,
  reconcile_normal, with_cluster, default_service_type, deferred_exit, dispatch,
}
use cluster_api_provider_kub.Controllers.Common.{is_not_found, Run}
use cluster_api_provider_kub.Controllers.Machine.Calls.Grows.{Grows}

-- What the API server says of a cluster `k` that is asked for by `req`: what is patched is what is read
-- next, its Cluster is there and in its namespace, and neither is paused or deleted.
pub record ClusterAttached (p : Platform) (req : NamespacedName) (cluster : Cluster)
    (k : KubernetesCluster) : Type 0 where
  pub helped : p.new_helper ≡ none
  pub patched : (log : Log) (k' : KubernetesCluster) → p.cluster_patched log k' ≡ none
  pub kept :
      (log : Log) (k' : KubernetesCluster)
      → Resembles k.meta k'.meta
      → p.kubernetes_cluster (patch_cluster k' ∷ log) req ≡ ok k'
  pub owned :
      (log : Log) (m : ObjectMeta) → Resembles k.meta m → p.owner_cluster log m ≡ ok (some cluster)
  pub unpaused : (m : ObjectMeta) → Resembles k.meta m → p.is_paused cluster m ≡ false
  pub undeleted : k.meta.deletion_timestamp ≡ none
  pub same_namespace : cluster.meta.namespace ≡ k.meta.namespace

-- An API server that creates Services, and from then on finds them, each with an IP.
pub record Serves (p : Platform) : Type 0 where
  pub created : (log : Log) (s : Service) → p.service_created log s ≡ none
  pub found_later :
      (before : Log) (key : NamespacedName) (sent : Service) (e : Error)
      → p.service before key ≡ err e
      → is_not_found e ≡ true
      → key.namespace ≡ sent.meta.namespace
      → key.name ≡ sent.meta.name
      → (served : Service) × Served sent served
        × ((later : Log)
            → Grows (create_service sent ∷ get_service key ∷ before) later
            → p.service later key ≡ ok served)

module _ (p : Platform) (req : NamespacedName) (cluster : Cluster) (k : KubernetesCluster)
    (attached : ClusterAttached p req cluster k) where
  -- The body of `Reconcile` gets to `reconcileNormal`.
  reconcile_body-normal :
      (k' : KubernetesCluster) (log : Log)
      → Resembles k.meta k'.meta
      → reconcile_body p k' log
        ≡ reconcile_normal p cluster (default_service_type k') (get_owner_cluster k'.meta ∷ log)
  unfolding reconcile_body cluster_answer with_cluster dispatch default_service_type
  reconcile_body-normal k' log like =
      let kept : k'.meta.deletion_timestamp ≡ none =
        ap (λ (m : ObjectMeta). m.deletion_timestamp) like ∙ attached.undeleted in
      ground (arith, attached.owned log k'.meta like, attached.unpaused k'.meta like, kept)

  -- The run of `reconcileNormal`, in a run of `Reconcile` that reads `k'`.
  abbrev pub normal_run : KubernetesCluster → Log → Run KubernetesCluster
  normal_run k' log =
      reconcile_normal p cluster (default_service_type k')
        (get_owner_cluster k'.meta ∷ get_kubernetes_cluster req ∷ log)

  reconcile_eq :
      (k' : KubernetesCluster) (log : Log)
      → p.kubernetes_cluster log req ≡ ok k'
      → reconcile p req log ≡ (
        (patch_deferred p (reconcile_body p k' (get_kubernetes_cluster req ∷ log))).exit,
        (patch_deferred p (reconcile_body p k' (get_kubernetes_cluster req ∷ log))).log,
      )
  unfolding reconcile with_object
  reconcile_eq k' log read = ground (arith, read, attached.helped)

  -- What is read after a run is what the run patched.
  pub reconcile-read :
      (k' : KubernetesCluster) (log : Log) (run : Run KubernetesCluster)
      → Resembles k.meta k'.meta
      → p.kubernetes_cluster log req ≡ ok k'
      → normal_run k' log ≡ run
      → Resembles k.meta run.object.meta
      → ((reconcile p req log).1 ≡ patch_cluster (reconcile_phase run.object) ∷ run.log)
        × ((reconcile p req log).0 ≡ deferred_exit run.exit none)
        × (p.kubernetes_cluster (reconcile p req log).1 req ≡ ok (reconcile_phase run.object))
  unfolding patch_deferred reconcile_phase
  reconcile-read k' log run like read e like' =
      let body = reconcile_body-normal k' (get_kubernetes_cluster req ∷ log) like ∙ e in
      let calls : (reconcile p req log).1 ≡ patch_cluster (reconcile_phase run.object) ∷ run.log =
        ap (λ r. r.1) (reconcile_eq k' log read) ∙ ap (λ r. (patch_deferred p r).log) body in
      (
        calls,
        ap (λ r. r.0) (reconcile_eq k' log read)
            ∙ ap (λ r. (patch_deferred p r).exit) body
            ∙ ap (deferred_exit run.exit) (attached.patched run.log (reconcile_phase run.object)),
        ap (λ l. p.kubernetes_cluster l req) calls
            ∙ attached.kept run.log (reconcile_phase run.object) like',
      )
