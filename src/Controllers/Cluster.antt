-- ===== src/Controllers/Cluster.antt =====
-- controllers/kubernetescluster_controller.go: the reconciler of KubernetesClusters.
pub mod Endpoint
pub mod Creation
pub mod Served
pub mod Settled
pub mod Provisioned
pub mod Phase
use cluster_api_provider_kub.Prelude.{
  ℕ, ◌*◌, String, Bool, true, ◌&&◌, ◌||◌, Option, none, some, List, [], ◌∷◌, if◌then◌else◌, ◌==◌,
  ◌<>◌, is_some, nat_eq,
}
use cluster_api_provider_kub.Go.{message, Result, ok, err}
use cluster_api_provider_kub.Kube.{
  NamespacedName, ObjectMeta, new_meta, Service, ServicePort, LoadBalancerIngress, from_string,
  Cluster,
}
use cluster_api_provider_kub.Api.V1alpha3.{
  ApiEndpoint, is_zero, KubernetesCluster, KubernetesClusterPhase, kubernetes_cluster_finalizer,
  set_cluster_failure_reason, set_cluster_failure_message,
}
use cluster_api_provider_kub.Platform.{
  Platform, Log, get_kubernetes_cluster, get_owner_cluster, get_service, create_service,
  patch_cluster,
}
use cluster_api_provider_kub.Controllers.Common.{
  second, empty_result, Exit, returned, Run, stop, stop_with, requeue, is_not_found, deferred_exit,
}
use cluster_api_provider_kub.Controllers.Machine.Names.{
  cluster_label_name, machine_control_plane_label_name,
}
use cluster_api_provider_kub.Controllers.Machine.Normal.{
  is_controlled_by, finalizer_delete_dependents,
}
use cluster_api_provider_kub.Controllers.Machine.MachinePod.{api_server_port_name}

abbrev pub cluster_kind : String
cluster_kind = "KubernetesCluster"

-- corev1.ServiceTypeClusterIP and corev1.ServiceTypeLoadBalancer
abbrev pub service_type_cluster_ip : String
service_type_cluster_ip = "ClusterIP"

abbrev pub service_type_load_balancer : String
service_type_load_balancer = "LoadBalancer"

abbrev pub default_cluster_load_balancer_port : ℕ
default_cluster_load_balancer_port = 443

-- capierrors.UnsupportedChangeClusterError
abbrev pub unsupported_change_cluster_error : String
unsupported_change_cluster_error = "UnsupportedChange"

-- `clusterServiceName`
unfoldable pub cluster_service_name : Cluster → String
cluster_service_name cluster = cluster.meta.name <> "-api-server"

unfoldable pub fail_cluster : String → KubernetesCluster → KubernetesCluster
fail_cluster text k = record k {
  status =
      set_cluster_failure_message
        (set_cluster_failure_reason k.status unsupported_change_cluster_error) (message text);
}

-- `Status.FailureReason != nil || Status.FailureMessage != nil`
unfoldable pub has_failed : KubernetesCluster → Bool
has_failed k = is_some k.status.failure_reason || is_some k.status.failure_message

unfoldable pub add_cluster_finalizers : Platform → KubernetesCluster → KubernetesCluster
add_cluster_finalizers p k = record k {
  meta = record (k.meta) {
    finalizers =
        p.add_finalizer (p.add_finalizer k.meta.finalizers kubernetes_cluster_finalizer)
          finalizer_delete_dependents;
  };
}

-- The port that the new Service gets.
unfoldable pub desired_port : ApiEndpoint → ℕ
desired_port e = if nat_eq e.port 0 then default_cluster_load_balancer_port else e.port

-- The Service of `createClusterService` before its owner is set.
unfoldable pub unowned_service : Cluster → KubernetesCluster → Service
unfolding desired_port
unowned_service cluster k =
    let type' = k.spec.control_plane_service_type in
    let host' = k.spec.control_plane_endpoint.host in
    record {
      meta =
          new_meta (cluster_service_name cluster) cluster.meta.namespace
            ((cluster_label_name, cluster.meta.name) ∷ []);
      spec = record {
        selector =
            (cluster_label_name, cluster.meta.name) ∷ (machine_control_plane_label_name, "") ∷ [];
        ports =
            record {
              name = "https";
              protocol = "TCP";
              port = desired_port k.spec.control_plane_endpoint;
              target_port = from_string api_server_port_name;
            }
            ∷ [];
        type = type';
        cluster_ip = if type' == service_type_cluster_ip then host' else "";
        load_balancer_ip =
            if type' == service_type_cluster_ip
            then ""
            else if type' == service_type_load_balancer
            then host'
            else "";
      };
      ingress = [];
    }

unfoldable pub create_owned :
    Platform → KubernetesCluster → Log → Service → Result ObjectMeta → Run KubernetesCluster
create_owned p k log s (err e) = stop_with k log (some e)
create_owned p k log s (ok meta') =
    let owned : Service = record s { meta = meta' } in
    stop_with k (create_service owned ∷ log) (p.service_created log owned)

-- `createClusterService`
unfoldable pub create_cluster_service :
    Platform → Cluster → KubernetesCluster → Log → Run KubernetesCluster
unfolding create_owned
create_cluster_service p cluster k log =
    let s = unowned_service cluster k in
    create_owned p k log s (p.set_controller_reference cluster_kind k.meta s.meta)

-- The host of a load balancer: its first ingress's hostname, or else the IP; `none` where it has none
-- yet.
unfoldable pub ingress_host : List LoadBalancerIngress → Option String
ingress_host [] = none
ingress_host (i ∷ _) =
    if i.hostname == "" then if i.ip == "" then none else some i.ip else some i.hostname

unfoldable pub service_host : Service → Option String
unfolding ingress_host
service_host s =
    if s.spec.type == service_type_load_balancer
    then ingress_host s.ingress
    else some s.spec.cluster_ip

-- The loop over the ports: the last one whose target is the API server's port, or 0.
unfoldable pub port_from : Platform → ℕ → List ServicePort → ℕ
port_from p port' [] = port'
port_from p port' (q ∷ ports') =
    port_from p (if p.port_text q.target_port == api_server_port_name then q.port else port') ports'

unfoldable pub service_port : Platform → Service → ℕ
unfolding port_from
service_port p s = port_from p 0 s.spec.ports

unfoldable pub set_endpoint : String → ℕ → KubernetesCluster → KubernetesCluster
set_endpoint host' port' k =
    if is_zero k.spec.control_plane_endpoint
    then record k {
      spec = record (k.spec) { control_plane_endpoint = record { host = host'; port = port' } };
    }
    else k

-- The endpoint is that of the Service.
unfoldable pub endpoint_matches : String → ℕ → ApiEndpoint → Bool
endpoint_matches host' port' e = e.host == host' && nat_eq e.port port'

unfoldable pub set_cluster_ready : KubernetesCluster → KubernetesCluster
set_cluster_ready k = record k { status = record (k.status) { ready = true } }

unfoldable pub check_endpoint : String → ℕ → KubernetesCluster → Log → Run KubernetesCluster
check_endpoint host' port' k log =
    if endpoint_matches host' port' k.spec.control_plane_endpoint
    then stop (set_cluster_ready k) log
    else stop (fail_cluster "Service endpoint has changed" k) log

-- The Service belongs to another object: the failure is set, and returned too.
unfoldable pub not_controlled : KubernetesCluster → Log → Service → Run KubernetesCluster
not_controlled k log s =
    let text = "expected Service " <> s.meta.name <> " to be controlled by KubernetesCluster" in
    stop_with (fail_cluster text k) log (some (message text))

-- The Service is the cluster's.
unfoldable pub with_own_service :
    Platform → KubernetesCluster → Log → Service → Run KubernetesCluster
with_own_service p k log s = elim (service_host s) [
  | none ↦ requeue k log (second * 1) none
  | some host' ↦
      check_endpoint host' (service_port p s) (set_endpoint host' (service_port p s) k) log
]

-- The Service exists.
unfoldable pub with_service : Platform → KubernetesCluster → Log → Service → Run KubernetesCluster
unfolding not_controlled with_own_service
with_service p k log s =
    if is_controlled_by p s.meta k.meta then with_own_service p k log s else not_controlled k log s

unfoldable pub service_answer :
    Platform → Cluster → KubernetesCluster → Log → Result Service → Run KubernetesCluster
service_answer p cluster k log (ok s) = with_service p k log s
service_answer p cluster k log (err e) =
    if is_not_found e then create_cluster_service p cluster k log else stop_with k log (some e)

unfoldable pub service_key : Cluster → KubernetesCluster → NamespacedName
service_key cluster k = record { namespace = k.meta.namespace; name = cluster_service_name cluster }

-- `reconcileNormal`
unfoldable pub reconcile_normal :
    Platform → Cluster → KubernetesCluster → Log → Run KubernetesCluster
unfolding service_key service_answer
reconcile_normal p cluster k0 log =
    let k = add_cluster_finalizers p k0 in
    service_answer p cluster k (get_service (service_key cluster k) ∷ log)
      (p.service log (service_key cluster k))

-- `reconcileDelete`
unfoldable pub reconcile_delete : Platform → KubernetesCluster → Log → Run KubernetesCluster
reconcile_delete p k log =
    stop
      (record k {
        meta = record (k.meta) {
          finalizers = p.remove_finalizer k.meta.finalizers kubernetes_cluster_finalizer;
        };
      })
      log

unfoldable pub phase_if_unset : KubernetesClusterPhase → KubernetesClusterPhase
phase_if_unset KubernetesClusterPhase.unset = KubernetesClusterPhase.provisioning
phase_if_unset phase = phase

unfoldable pub next_phase : KubernetesCluster → KubernetesClusterPhase
unfolding phase_if_unset
next_phase k =
    let p0 = phase_if_unset k.status.phase in
    let p1 = if k.status.ready then KubernetesClusterPhase.provisioned else p0 in
    let p2 = if has_failed k then KubernetesClusterPhase.failed else p1 in
    if is_some k.meta.deletion_timestamp then KubernetesClusterPhase.deleting else p2

-- `reconcilePhase`
unfoldable pub reconcile_phase : KubernetesCluster → KubernetesCluster
unfolding next_phase
reconcile_phase k = record k { status = record (k.status) { phase = next_phase k } }

-- The default of `Spec.ControlPlaneServiceType`.
unfoldable pub default_service_type : KubernetesCluster → KubernetesCluster
default_service_type k =
    if k.spec.control_plane_service_type == ""
    then record k {
      spec = record (k.spec) { control_plane_service_type = service_type_cluster_ip };
    }
    else k

module _ (p : Platform) where
  -- From the default of the service type on.
  unfoldable pub dispatch : Cluster → KubernetesCluster → Log → Run KubernetesCluster
  dispatch cluster k log =
      if is_some k.meta.deletion_timestamp
      then reconcile_delete p k log
      else reconcile_normal p cluster k log

  unfoldable pub with_cluster : Cluster → KubernetesCluster → Log → Run KubernetesCluster
  with_cluster cluster k log =
      if p.is_paused cluster k.meta
      then stop k log
      else dispatch cluster (default_service_type k) log

  unfoldable pub cluster_answer :
      KubernetesCluster → Log → Result (Option Cluster) → Run KubernetesCluster
  cluster_answer k log (err e) = stop_with k log (some e)
  cluster_answer k log (ok none) = stop k log
  cluster_answer k log (ok (some cluster)) = with_cluster cluster k log

  -- `Reconcile` between the deferred function's registration and its call.
  unfoldable pub reconcile_body : KubernetesCluster → Log → Run KubernetesCluster
  unfolding cluster_answer
  reconcile_body k log =
      cluster_answer k (get_owner_cluster k.meta ∷ log) (p.owner_cluster log k.meta)

  -- The deferred function.
  unfoldable pub patch_deferred : Run KubernetesCluster → Run KubernetesCluster
  patch_deferred r =
      let k = reconcile_phase r.object in
      record {
        object = k;
        log = patch_cluster k ∷ r.log;
        exit = deferred_exit r.exit (p.cluster_patched r.log k);
      }

  unfoldable pub with_object : Log → Result KubernetesCluster → Exit × Log
  with_object log (err e) = (returned empty_result (if is_not_found e then none else some e), log)
  with_object log (ok k) = elim p.new_helper [
    | some e ↦ (returned empty_result (some e), log)
    | none ↦ let r = patch_deferred (reconcile_body k log) in (r.exit, r.log)
  ]

  -- `Reconcile`
  unfoldable pub reconcile : NamespacedName → Log → Exit × Log
  unfolding with_object
  reconcile req log = with_object (get_kubernetes_cluster req ∷ log) (p.kubernetes_cluster log req)
