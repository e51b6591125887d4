-- ===== src/Controllers/Machine/Container.antt =====
-- `setKindContainerBase`.
use cluster_api_provider_kub.Prelude.{
  ℕ, suc, String, true, false, Option, none, some, List, [], ◌∷◌, ◌++◌, if◌then◌else◌, ◌==◌, ◌<>◌,
  set, get_elem?,
}
use cluster_api_provider_kub.Kube.{
  Quantity, SecurityContext, Container, empty_container, Pod, Machine,
}
use cluster_api_provider_kub.Platform.{Platform}
use cluster_api_provider_kub.Utils.Exec.{kind_container_name}
use cluster_api_provider_kub.Utils.Qos.{
  PodQosClass, guaranteed, burstable, best_effort, get_pod_qos,
}
use cluster_api_provider_kub.Controllers.Machine.Names.{machine_pod_image}
use cluster_api_provider_kub.Controllers.Machine.Volumes

-- The loop over the containers; `kind_container` is the index of the last one named "kind".
unfoldable pub kind_index_from : ℕ → Option ℕ → List Container → Option ℕ
kind_index_from index kind_container [] = kind_container
kind_index_from index kind_container (c ∷ containers) =
    kind_index_from (suc index)
      (if c.name == kind_container_name then some index else kind_container) containers

unfoldable pub kind_index : List Container → Option ℕ
unfolding kind_index_from
kind_index containers = kind_index_from 0 none containers

-- The containers, and the index at which the pointer `kindContainer` stands. The loop has an `index`
-- of its own, so the outer one is still -1 where an empty container is appended: the pointer is to
-- index 0.
unfoldable pub find_or_create : List Container → List Container × ℕ
find_or_create containers = elim (kind_index containers) [
  | some i ↦ (containers, i)
  | none ↦ (containers ++ empty_container ∷ [], 0)
]

-- `resource.NewMilliQuantity(1, resource.DecimalSI)`
abbrev pub one_milli_cpu : Quantity
one_milli_cpu = record { canonical = "1m" }

privileged_context : Option SecurityContext → SecurityContext
privileged_context none = record { privileged = some true; rest = "" }
privileged_context (some s) = elim s.privileged [
  | none ↦ record s { privileged = some true }
  | some _ ↦ s
]

unfoldable pub set_name_and_image : Machine → Container → Container
set_name_and_image machine c = record c {
  name = kind_container_name;
  image = machine_pod_image machine;
}

-- The request of one milli-CPU where the pod is best effort.
unfoldable pub set_resources : PodQosClass → Container → Container
set_resources best_effort c = record c {
  resources = record { requests = ("cpu", one_milli_cpu) ∷ []; limits = [] };
}
set_resources guaranteed c = c
set_resources burstable c = c

unfoldable pub set_privileged_tty : Container → Container
unfolding privileged_context
set_privileged_tty c = record c {
  security_context = some (privileged_context c.security_context);
  tty = true;
}

-- `path.Join(etcSystemdSystem, …)`
abbrev pub systemd_path : String → String
systemd_path name = "/etc/systemd/system" <> "/" <> name

-- The volume mounts, in order; the source sets that of the path unit twice.
unfoldable pub set_volume_mounts : Container → Container
set_volume_mounts c0 =
    let c1 = Volumes.set_volume_mount c0 Volumes.tmp_volume_name "/tmp" "" false in
    let c2 = Volumes.set_volume_mount c1 Volumes.run_volume_name "/run" "" false in
    let c3 = Volumes.set_volume_mount c2 Volumes.lib_modules_volume_name "/lib/modules" "" true in
    let c4 =
      Volumes.set_volume_mount c3 Volumes.var_lib_containerd_volume_name "/var/lib/containerd" ""
        false in
    let c5 = Volumes.set_volume_mount c4 Volumes.var_log_volume_name "/var/log" "" false in
    let c6 =
      Volumes.set_volume_mount c5 Volumes.cloud_init_scripts_volume_name "/opt/cloud-init" ""
        false in
    let c7 =
      Volumes.set_volume_mount c6 Volumes.cloud_init_systemd_units_volume_name
        (systemd_path Volumes.cloud_init_systemd_service_unit_name)
        Volumes.cloud_init_systemd_service_unit_name false in
    let c8 =
      Volumes.set_volume_mount c7 Volumes.cloud_init_systemd_units_volume_name
        (systemd_path Volumes.cloud_init_systemd_path_unit_name)
        Volumes.cloud_init_systemd_path_unit_name false in
    let c9 =
      Volumes.set_volume_mount c8 Volumes.cloud_init_systemd_units_volume_name
        (systemd_path Volumes.cloud_init_systemd_path_unit_name)
        Volumes.cloud_init_systemd_path_unit_name false in
    Volumes.set_volume_mount c9 Volumes.kubelet_systemd_service_dropin_volume_name
      "/etc/systemd/system/kubelet.service.d/20-capk.conf"
      Volumes.kubelet_systemd_service_dropin_file_name false

-- A write through a pointer to the container at an index.
unfoldable pub update_at : ℕ → (Container → Container) → List Container → List Container
update_at i f cs = elim (get_elem? cs i) [ none ↦ cs | some c ↦ set cs i (f c) ]

unfoldable pub with_containers : Pod → List Container → Pod
with_containers pod cs = record pod { spec = record (pod.spec) { containers = cs } }

-- `setKindContainerBase`: the pod, and the index of the container that is returned.
unfoldable pub set_kind_container_base : Platform → Machine → Pod → Pod × ℕ
set_kind_container_base p machine pod =
    let (containers, i) = find_or_create pod.spec.containers in
    let named = update_at i (set_name_and_image machine) containers in
    let qos = get_pod_qos p (with_containers pod named) in
    let finish = λ (c : Container). set_volume_mounts (set_privileged_tty (set_resources qos c)) in
    (with_containers pod (update_at i finish named), i)
