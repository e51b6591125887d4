-- ===== src/Controllers/Cluster/Creation.antt =====
-- The Service that a KubernetesCluster creates, and what the next reconciliation makes of it.
use cluster_api_provider_kub.Prelude.{
  none, some, true, false, ◌≡◌, refl, arith, inl, inr, ◌==◌, if◌then◌else◌, ap, ◌∙◌, Bool-cases,
  eq_iff,
}
use cluster_api_provider_kub.Api.V1alpha3.{is_zero}
use cluster_api_provider_kub.Platform.{Platform}
use cluster_api_provider_kub.Platform.Lawful.{PortLaw}
use cluster_api_provider_kub.Controllers.Cluster.{
  with_service, unowned_service, service_port, set_cluster_ready, check_endpoint, set_endpoint,
  Service, Cluster, KubernetesCluster, Log, nat_eq, ObjectMeta, default_cluster_load_balancer_port,
  service_type_cluster_ip, api_server_port_name, is_controlled_by, returned, empty_result,
  service_host, port_from, endpoint_matches, String, ℕ, stop, with_own_service,
}

-- Where the text of a named port is its name, the port that `reconcileNormal` reads from the Service
-- that `createClusterService` makes is the endpoint's port, or 443 where that is 0.
pub service_port-unowned_service :
    (p : Platform)
    → PortLaw p
    → (cluster : Cluster) (k : KubernetesCluster)
    → service_port p (unowned_service cluster k) ≡ (
        if nat_eq k.spec.control_plane_endpoint.port 0
        then default_cluster_load_balancer_port
        else k.spec.control_plane_endpoint.port)
unfolding service_port unowned_service
service_port-unowned_service p law cluster k = rw (law.port_text_name api_server_port_name)

-- The API server keeps what was sent, gives the Service of a cluster an IP that is not empty, and the
-- IP that was asked for, if one was.
pub record Served (sent served : Service) : Type 0 where
  pub meta : served.meta ≡ sent.meta
  pub ports : served.spec.ports ≡ sent.spec.ports
  pub type : served.spec.type ≡ sent.spec.type
  pub given_ip : (served.spec.cluster_ip == "") ≡ false
  pub asked_ip :
      (sent.spec.cluster_ip == "") ≡ false → served.spec.cluster_ip ≡ sent.spec.cluster_ip

cluster_ip-unowned_service :
    (cluster : Cluster) (k : KubernetesCluster)
    → k.spec.control_plane_service_type ≡ service_type_cluster_ip
    → (unowned_service cluster k).spec.cluster_ip ≡ k.spec.control_plane_endpoint.host
unfolding unowned_service
cluster_ip-unowned_service cluster k t = rw t

pub set_endpoint-served :
    (h : String) (q : ℕ) (k : KubernetesCluster)
    → (is_zero k.spec.control_plane_endpoint ≡ false
        → k.spec.control_plane_endpoint ≡ record { host = h; port = q })
    → set_endpoint h q k ≡ record k {
      spec = record (k.spec) { control_plane_endpoint = record { host = h; port = q } };
    }
unfolding set_endpoint
set_endpoint-served h q k same = elim (Bool-cases (is_zero k.spec.control_plane_endpoint)) [
  | inl z ↦ rw z
  | inr z ↦ ground (arith, same z)
]

pub with_own_service_host :
    (p : Platform) (k : KubernetesCluster) (log : Log) (s : Service) (h : String)
    → service_host s ≡ some h
    → with_own_service p k log s
      ≡ check_endpoint h (service_port p s) (set_endpoint h (service_port p s) k) log
unfolding with_own_service
with_own_service_host p k log s h e = rw (e, with_own_service)

pub check_endpoint_same :
    (h : String) (q : ℕ) (k : KubernetesCluster) (log : Log)
    → k.spec.control_plane_endpoint ≡ record { host = h; port = q }
    → check_endpoint h q k log ≡ stop (set_cluster_ready k) log
unfolding check_endpoint endpoint_matches
check_endpoint_same h q k log e =
    let m : endpoint_matches h q k.spec.control_plane_endpoint ≡ true =
      ground (arith, eq_iff h h, e) in
    rw m

module _ (p : Platform) (law : PortLaw p) (cluster : Cluster) (k : KubernetesCluster)
    (sent served : Service) (m : ObjectMeta)
    (t : k.spec.control_plane_service_type ≡ service_type_cluster_ip)
    (e : sent ≡ record (unowned_service cluster k) { meta = m }) (s : Served sent served) where
  pub host-served : service_host served ≡ some served.spec.cluster_ip
  unfolding service_host
  host-served =
      let u : served.spec.type ≡ service_type_cluster_ip =
        s.type ∙ ap (λ (x : Service). x.spec.type) e ∙ (unfold unowned_service in t) in
      rw u

  pub port-served : service_port p served ≡ service_port p (unowned_service cluster k)
  unfolding service_port
  port-served = ap (port_from p 0) (s.ports ∙ ap (λ (x : Service). x.spec.ports) e)

  -- An endpoint that was set is that of the Service.
  pub endpoint-served :
      is_zero k.spec.control_plane_endpoint ≡ false
      → k.spec.control_plane_endpoint
        ≡ record { host = served.spec.cluster_ip; port = service_port p served }
  unfolding is_zero
  endpoint-served z =
      let ip : sent.spec.cluster_ip ≡ k.spec.control_plane_endpoint.host =
        ap (λ (x : Service). x.spec.cluster_ip) e ∙ cluster_ip-unowned_service cluster k t in
      let given : (sent.spec.cluster_ip == "") ≡ false = rw ip (ground arith) in
      ground
        (arith, ip, s.asked_ip given, port-served, service_port-unowned_service p law cluster k)

-- Let the API server serve the ClusterIP Service that `createClusterService` makes for a cluster
-- with its metadata, ports and type, with an IP, and with the IP that was asked for if any was, and
-- let the cluster control it, and a port's text be its name. Then, with that Service found, the rest
-- of `reconcileNormal` makes the cluster ready and returns no error, and its endpoint is the
-- Service's IP and port.
with_service-created :
    (p : Platform) (law : PortLaw p) (cluster : Cluster) (k : KubernetesCluster) (log : Log)
    (sent served : Service) (m : ObjectMeta)
    → k.spec.control_plane_service_type ≡ service_type_cluster_ip
    → sent ≡ record (unowned_service cluster k) { meta = m }
    → is_controlled_by p m k.meta ≡ true
    → Served sent served
    → ((with_service p k log served).object
        ≡ set_cluster_ready (record k {
          spec = record (k.spec) {
            control_plane_endpoint = record {
              host = served.spec.cluster_ip;
              port = service_port p (unowned_service cluster k);
            };
          };
        }))
      × ((with_service p k log served).exit ≡ returned empty_result none)
unfolding with_service
with_service-created p law cluster k log sent served m t e c s =
    let owned : is_controlled_by p served.meta k.meta ≡ true =
      rw (s.meta ∙ ap (λ (x : Service). x.meta) e) c in
    let h = served.spec.cluster_ip in
    let q = port-served p law cluster k sent served m t e s in
    let own =
      with_own_service_host p k log served h (host-served p law cluster k sent served m t e s)
      ∙ ap (λ (x : KubernetesCluster). check_endpoint h (service_port p served) x log)
          (set_endpoint-served h (service_port p served) k
            (endpoint-served p law cluster k sent served m t e s))
      ∙ check_endpoint_same h (service_port p served) _ log refl in
    rw (owned, own, q) (refl, refl)
