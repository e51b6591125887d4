-- ===== src/Controllers/Machine/Names.antt =====
-- The names and small values that controllers/kubernetesmachine_utils.go derives from objects.
use cluster_api_provider_kub.Prelude.{ℕ, String, Option, none, some, if◌then◌else◌, ◌==◌, ◌<>◌}
use cluster_api_provider_kub.Kube.{Cluster, Machine, Pod, PersistentVolumeClaim}
use cluster_api_provider_kub.Api.V1alpha3.{KubernetesMachine}

abbrev pub machine_kind : String
machine_kind = "KubernetesMachine"

-- clusterv1.ClusterLabelName and clusterv1.MachineControlPlaneLabelName
abbrev pub cluster_label_name : String
cluster_label_name = "cluster.x-k8s.io/cluster-name"

abbrev pub machine_control_plane_label_name : String
machine_control_plane_label_name = "cluster.x-k8s.io/control-plane"

-- `machinePodName`
unfoldable pub machine_pod_name : KubernetesMachine → String
machine_pod_name k = k.meta.name

-- `machinePodNodeName`
unfoldable pub machine_pod_node_name : Pod → String
machine_pod_node_name pod = if pod.spec.hostname == "" then pod.meta.name else pod.spec.hostname

-- `getProviderIDFromPod`, at a pointer that is never nil: so with no error.
unfoldable pub get_provider_id_from_pod : Pod → String
get_provider_id_from_pod pod = "kubernetes://" <> pod.meta.namespace <> "/" <> pod.meta.name

-- `getPersistentVolumeClaimName`
unfoldable pub get_persistent_volume_claim_name : KubernetesMachine → PersistentVolumeClaim → String
get_persistent_volume_claim_name k claim = claim.meta.name <> "-" <> k.meta.name

-- The name of the Secret with the cloud-init scripts.
unfoldable pub cloud_init_secret_name : KubernetesMachine → String
unfolding machine_pod_name
cloud_init_secret_name k = machine_pod_name k <> "-cloud-init"

version_tag : Option String → String
version_tag none = "v1.17.0"
version_tag (some version) = version

-- `machinePodImage`
unfoldable pub machine_pod_image : Machine → String
unfolding version_tag
machine_pod_image machine = "kindest/node" <> ":" <> version_tag machine.version

given_port : Option (Option ℕ) → ℕ
given_port (some (some port)) = port
given_port (some none) = 6443
given_port none = 6443

-- `apiServerPort`
unfoldable pub api_server_port : Cluster → ℕ
unfolding given_port
api_server_port cluster = given_port cluster.cluster_network
