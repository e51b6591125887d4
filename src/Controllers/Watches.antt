-- ===== src/Controllers/Watches.antt =====
-- The functions that map a watched object to the requests it enqueues. An object of another Go type is
-- `none`; the requests nil and empty are both the empty list.
pub mod Requests
pub mod Setup
use cluster_api_provider_kub.Prelude.{
  String, ◌&&◌, Option, none, some, List, [], ◌∷◌, if◌then◌else◌, ◌==◌,
}
use cluster_api_provider_kub.Go.{Result, ok, err}
use cluster_api_provider_kub.Kube.{
  Labels, NamespacedName, OwnerReference, ObjectMeta, Cluster, Machine,
}
use cluster_api_provider_kub.Api.V1alpha3.{group_version}
use cluster_api_provider_kub.Platform.{Platform}
use cluster_api_provider_kub.Controllers.Machine.Names.{machine_kind, cluster_label_name}
use cluster_api_provider_kub.Controllers.Cluster.{cluster_kind}

unfoldable pub request_of_owner : String → String → Option OwnerReference → List NamespacedName
request_of_owner kind' namespace' none = []
request_of_owner kind' namespace' (some ref) =
    if ref.kind == kind' && ref.api_version == group_version
    then record { namespace = namespace'; name = ref.name } ∷ []
    else []

-- The body that the four maps from an owned object share.
unfoldable pub owner_requests : Platform → String → Option ObjectMeta → List NamespacedName
unfolding request_of_owner
owner_requests p kind' none = []
owner_requests p kind' (some meta') =
    request_of_owner kind' meta'.namespace (p.get_controller_of meta')

-- `PodToKubernetesMachine`
unfoldable pub pod_to_kubernetes_machine : Platform → Option ObjectMeta → List NamespacedName
pod_to_kubernetes_machine p o = owner_requests p machine_kind o

-- `SecretToKubernetesMachine`
unfoldable pub secret_to_kubernetes_machine : Platform → Option ObjectMeta → List NamespacedName
secret_to_kubernetes_machine p o = owner_requests p machine_kind o

-- `PersistentVolumeClaimToKubernetesMachine`
unfoldable pub persistent_volume_claim_to_kubernetes_machine :
    Platform → Option ObjectMeta → List NamespacedName
persistent_volume_claim_to_kubernetes_machine p o = owner_requests p machine_kind o

-- `ServiceToKubernetesCluster`
unfoldable pub service_to_kubernetes_cluster : Platform → Option ObjectMeta → List NamespacedName
service_to_kubernetes_cluster p o = owner_requests p cluster_kind o

-- The loop over the machines of a cluster. A request names the Machine.
unfoldable pub machine_requests : List Machine → List NamespacedName
machine_requests [] = []
machine_requests (m ∷ machines) =
    let rest = machine_requests machines in
    if m.infrastructure_ref == ""
    then rest
    else record { namespace = m.meta.namespace; name = m.meta.name } ∷ rest

listed : Result (List Machine) → List NamespacedName
listed (ok machines) = machine_requests machines
listed (err _) = []

-- `KubernetesClusterToKubernetesMachines`, given the answers of `GetOwnerCluster` and of the list of
-- the machines with a label in a namespace.
unfoldable pub kubernetes_cluster_to_kubernetes_machines :
    (ObjectMeta → Result (Option Cluster))
    → (String → Labels → Result (List Machine))
    → Option ObjectMeta
    → List NamespacedName
unfolding listed
kubernetes_cluster_to_kubernetes_machines owner machines none = []
kubernetes_cluster_to_kubernetes_machines owner machines (some meta') = elim (owner meta') [
  | err _ ↦ []
  | ok found ↦ elim found [
    | none ↦ []
    | some cluster ↦
        listed (machines meta'.namespace ((cluster_label_name, cluster.meta.name) ∷ []))
  ]
]
