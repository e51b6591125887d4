-- ===== src/Controllers/Machine/MachinePod.antt =====
-- `getMachinePodBase`, `createControlPlaneMachinePod` and `createWorkerMachinePod`.
use cluster_api_provider_kub.Prelude.{
  String, false, none, some, [], ◌∷◌, ◌++◌, if◌then◌else◌, ◌==◌, any,
}
use cluster_api_provider_kub.Prelude.Maps.{insert}
use cluster_api_provider_kub.Go.{Result, ok, err}
use cluster_api_provider_kub.Kube.{
  new_meta, ObjectMeta, Pod, Container, ContainerPort, Probe, tcp_socket, from_int, empty_dir,
  Cluster, Machine,
}
use cluster_api_provider_kub.Api.V1alpha3.{KubernetesMachine}
use cluster_api_provider_kub.Platform.{Platform, Log, create_pod}
use cluster_api_provider_kub.Controllers.Common.{Run, stop_with}
use cluster_api_provider_kub.Controllers.Machine.Names.{
  machine_kind, cluster_label_name, machine_control_plane_label_name, machine_pod_name,
  cloud_init_secret_name, api_server_port,
}
use cluster_api_provider_kub.Controllers.Machine.Volumes.{
  var_lib_etcd_volume_name, add_default_volumes, if_missing, set_volume_mount,
}
use cluster_api_provider_kub.Controllers.Machine.Claims.{update_storage}
use cluster_api_provider_kub.Controllers.Machine.Container.{
  set_kind_container_base, update_at, with_containers,
}

abbrev pub api_server_port_name : String
api_server_port_name = "kube-apiserver"

-- The pod of `getMachinePodBase` before its owner is set.
unfoldable pub unowned_pod_base : Cluster → KubernetesMachine → Pod
unowned_pod_base cluster k = record {
  meta =
      new_meta (machine_pod_name k) cluster.meta.namespace
        ((cluster_label_name, cluster.meta.name) ∷ []);
  spec = record (k.spec.pod_spec) {
    volumes = add_default_volumes (cloud_init_secret_name k) k.spec.pod_spec.volumes;
    restart_policy = "Never";
  };
  status = record { conditions = []; container_statuses = [] };
}

owned_pod : Pod → Result ObjectMeta → Result Pod
owned_pod pod (ok meta') = ok (record pod { meta = meta' })
owned_pod pod (err e) = err e

-- `getMachinePodBase`
unfoldable pub get_machine_pod_base : Platform → Cluster → KubernetesMachine → Result Pod
unfolding owned_pod
get_machine_pod_base p cluster k =
    owned_pod (unowned_pod_base cluster k)
      (p.set_controller_reference machine_kind k.meta (unowned_pod_base cluster k).meta)

unfoldable pub set_control_plane_label : Pod → Pod
set_control_plane_label pod = record pod {
  meta = record (pod.meta) { labels = insert machine_control_plane_label_name "" pod.meta.labels };
}

unfoldable pub add_etcd_volume : Pod → Pod
add_etcd_volume pod = record pod {
  spec = record (pod.spec) {
    volumes =
        pod.spec.volumes
        ++ if_missing pod.spec.volumes
            (record { name = var_lib_etcd_volume_name; source = empty_dir "" });
  };
}

api_server_probe : Cluster → Probe
api_server_probe cluster = record {
  period_seconds = 2;
  failure_threshold = 2;
  handler = tcp_socket (from_int (api_server_port cluster));
  rest = "";
}

api_server_container_port : Cluster → ContainerPort
api_server_container_port cluster = record {
  name = api_server_port_name;
  protocol = "TCP";
  container_port = api_server_port cluster;
  rest = "";
}

-- What the kind container of a control plane gets besides: the etcd mount, a readiness probe and the
-- port of the API server, each unless it has one.
unfoldable pub set_control_plane_container : Cluster → Container → Container
unfolding api_server_probe api_server_container_port
set_control_plane_container cluster c0 =
    let c = set_volume_mount c0 var_lib_etcd_volume_name "/var/lib/etcd" "" false in
    record c {
      readiness_probe = elim c.readiness_probe [
        | none ↦ some (api_server_probe cluster)
        | some probe ↦ some probe
      ];
      ports =
          if any (λ q. q.name == api_server_port_name) c.ports
          then c.ports
          else c.ports ++ api_server_container_port cluster ∷ [];
    }

-- The pod that `createControlPlaneMachinePod` creates.
unfoldable pub control_plane_pod : Platform → Cluster → Machine → KubernetesMachine → Result Pod
control_plane_pod p cluster machine k = elim (get_machine_pod_base p cluster k) [
  | err e ↦ err e
  | ok base ↦ elim (update_storage p k (set_control_plane_label base)) [
    | err e ↦ err e
    | ok stored ↦
        let (pod, i) = set_kind_container_base p machine stored in
        ok (
          with_containers (add_etcd_volume pod)
            (update_at i (set_control_plane_container cluster) pod.spec.containers))
  ]
]

-- The pod that `createWorkerMachinePod` creates.
unfoldable pub worker_pod : Platform → Cluster → Machine → KubernetesMachine → Result Pod
worker_pod p cluster machine k = elim (get_machine_pod_base p cluster k) [
  | err e ↦ err e
  | ok base ↦ elim (update_storage p k base) [
    | err e ↦ err e
    | ok stored ↦ ok (set_kind_container_base p machine stored).0
  ]
]

-- The choice of `createMachinePod`.
unfoldable pub machine_pod : Platform → Cluster → Machine → KubernetesMachine → Result Pod
machine_pod p cluster machine k =
    if p.is_control_plane_machine machine
    then control_plane_pod p cluster machine k
    else worker_pod p cluster machine k

-- The creation of a pod, if it could be built.
unfoldable pub create_built :
    Platform → KubernetesMachine → Log → Result Pod → Run KubernetesMachine
create_built p k log (err e) = stop_with k log (some e)
create_built p k log (ok pod) = stop_with k (create_pod pod ∷ log) (p.pod_created log pod)

-- `createMachinePod`
unfoldable pub create_machine_pod :
    Platform → Cluster → Machine → KubernetesMachine → Log → Run KubernetesMachine
unfolding create_built
create_machine_pod p cluster machine k log = create_built p k log (machine_pod p cluster machine k)
