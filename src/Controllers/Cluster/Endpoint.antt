-- ===== src/Controllers/Cluster/Endpoint.antt =====
-- The control plane endpoint of a KubernetesCluster.
use cluster_api_provider_kub.Prelude.{
  some, true, false, ◌≡◌, refl, arith, inl, inr, eq_iff, Bool-cases, Option-cases,
}
use cluster_api_provider_kub.Go.{ok, err}
use cluster_api_provider_kub.Api.V1alpha3.{
  KubernetesCluster, is_zero, set_cluster_failure_reason, set_cluster_failure_message, ApiEndpoint,
}
use cluster_api_provider_kub.Controllers.Cluster.{
  reconcile_normal, service_key, with_service, fail_cluster, check_endpoint, set_endpoint,
  set_cluster_ready, service_answer, create_cluster_service, create_owned, endpoint_matches,
  add_cluster_finalizers, String, Platform, Cluster, ℕ, Log, Result, Service, NamespacedName,
  is_controlled_by, ObjectMeta, service_host, unowned_service, service_port, cluster_kind,
}

-- The endpoint of `k'` is that of `k`, if `k` has one.
abbrev KeepsEndpoint : KubernetesCluster → KubernetesCluster → Type 0
KeepsEndpoint k k' =
    is_zero k.spec.control_plane_endpoint ≡ false
    → k'.spec.control_plane_endpoint ≡ k.spec.control_plane_endpoint

module _ (p : Platform) (cluster : Cluster) (k : KubernetesCluster) (log : Log) where
  with_service-KeepsEndpoint : (s : Service) → KeepsEndpoint k (with_service p k log s).object
  unfolding with_service check_endpoint set_endpoint fail_cluster set_cluster_ready
      set_cluster_failure_message set_cluster_failure_reason
  with_service-KeepsEndpoint s z = ground arith

-- Creating the Service changes nothing of the cluster.
object-create_cluster_service :
    (p : Platform) (cluster : Cluster) (k : KubernetesCluster) (log : Log)
    → (create_cluster_service p cluster k log).object ≡ k
unfolding create_cluster_service
object-create_cluster_service p cluster k log =
    owned (p.set_controller_reference cluster_kind k.meta (unowned_service cluster k).meta)
  where
    owned :
        (r : Result ObjectMeta) → (create_owned p k log (unowned_service cluster k) r).object ≡ k
    owned (ok m) = refl
    owned (err e) = refl

answer-KeepsEndpoint :
    (p : Platform) (cluster : Cluster) (k : KubernetesCluster) (log : Log) (r : Result Service)
    → KeepsEndpoint k (service_answer p cluster k log r).object
unfolding service_answer
answer-KeepsEndpoint p cluster k log (ok s) z = with_service-KeepsEndpoint p cluster k log s z
answer-KeepsEndpoint p cluster k log (err e) z =
    ground (arith, object-create_cluster_service p cluster k log)

-- An endpoint that is set, with a host and a port, is never changed by `reconcileNormal`, whatever the
-- API server answers.
pub reconcile_normal-KeepsEndpoint :
    (p : Platform) (cluster : Cluster) (k : KubernetesCluster) (log : Log)
    → is_zero k.spec.control_plane_endpoint ≡ false
    → (reconcile_normal p cluster k log).object.spec.control_plane_endpoint
      ≡ k.spec.control_plane_endpoint
unfolding reconcile_normal add_cluster_finalizers
reconcile_normal-KeepsEndpoint p cluster k log z =
    answer-KeepsEndpoint p cluster (add_cluster_finalizers p k) _ (p.service log _) z

-- What holds of the Service where a cluster becomes ready.
pub record ReadyService (p : Platform) (k k' : KubernetesCluster) (log : Log) (key : NamespacedName)
    : Type 0 where
  pub service : Service
  pub host : String
  pub found : p.service log key ≡ ok service
  pub owned : is_controlled_by p service.meta k.meta ≡ true
  pub has_host : service_host service ≡ some host
  pub endpoint :
      k'.spec.control_plane_endpoint ≡ record { host = host; port = service_port p service }
  pub not_moved :
      is_zero k.spec.control_plane_endpoint ≡ false
      → k.spec.control_plane_endpoint ≡ record { host = host; port = service_port p service }

endpoint_matches-eq :
    (host : String) (port : ℕ) (e : ApiEndpoint)
    → endpoint_matches host port e ≡ true
    → e ≡ record { host = host; port = port }
unfolding endpoint_matches
endpoint_matches-eq host port e h = ground (arith, eq_iff e.host host)

module _ (p : Platform) (k : KubernetesCluster) (log' log : Log) (key : NamespacedName) where
  with_service-ReadyService :
      (s : Service)
      → p.service log key ≡ ok s
      → k.status.ready ≡ false
      → (with_service p k log' s).object.status.ready ≡ true
      → ReadyService p k (with_service p k log' s).object log key
  unfolding with_service check_endpoint set_endpoint fail_cluster set_cluster_ready
      set_cluster_failure_message set_cluster_failure_reason
  with_service-ReadyService s q r t = elim (Bool-cases (is_controlled_by p s.meta k.meta)) [
    | inr c ↦ absurd (ground arith)
    | inl c ↦ elim (Option-cases (service_host s)) [
      | inl n ↦ absurd (ground arith)
      | inr (h, e) ↦
          let m : endpoint_matches h (service_port p s)
                (set_endpoint h (service_port p s) k).spec.control_plane_endpoint
              ≡ true =
            ground arith in
          record {
            service = s;
            host = h;
            found = q;
            owned = c;
            has_host = e;
            endpoint = ground (
              arith,
              endpoint_matches-eq h (service_port p s)
                  (set_endpoint h (service_port p s) k).spec.control_plane_endpoint m,
            );
            not_moved = λ z. ground (
              arith,
              endpoint_matches-eq h (service_port p s)
                  (set_endpoint h (service_port p s) k).spec.control_plane_endpoint m,
            );
          }
    ]
  ]

  answer-ReadyService :
      (cluster : Cluster) (r : Result Service)
      → p.service log key ≡ r
      → k.status.ready ≡ false
      → (service_answer p cluster k log' r).object.status.ready ≡ true
      → ReadyService p k (service_answer p cluster k log' r).object log key
  unfolding service_answer
  answer-ReadyService cluster (ok s) q n t = with_service-ReadyService s q n t
  answer-ReadyService cluster (err e) q n t =
      absurd (ground (arith, object-create_cluster_service p cluster k log'))

-- A KubernetesCluster that was not ready and is after `reconcileNormal` has a Service that it
-- controls and that has a host, and its endpoint is the host and port of that Service; an endpoint
-- that was set before was already that.
pub reconcile_normal-ReadyService :
    (p : Platform) (cluster : Cluster) (k : KubernetesCluster) (log : Log)
    → k.status.ready ≡ false
    → (reconcile_normal p cluster k log).object.status.ready ≡ true
    → ReadyService p
        (add_cluster_finalizers p k)
        (reconcile_normal p cluster k log).object
        log
        (service_key cluster k)
unfolding reconcile_normal add_cluster_finalizers service_key
reconcile_normal-ReadyService p cluster k log n t =
    answer-ReadyService p (add_cluster_finalizers p k) _ log (service_key cluster k) cluster
      (p.service log (service_key cluster k)) refl n t
