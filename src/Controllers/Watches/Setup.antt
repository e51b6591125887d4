-- ===== src/Controllers/Watches/Setup.antt =====
-- `SetupWithManager` of the two controllers: which requests an event of a watched object enqueues.
use cluster_api_provider_kub.Prelude.{String, Option, some, List, [], ◌∷◌, ◌++◌, ◌≡◌, refl}
use cluster_api_provider_kub.Go.{Result, ok}
use cluster_api_provider_kub.Kube.{Labels, NamespacedName, ObjectMeta, Cluster, Machine}
use cluster_api_provider_kub.Api.V1alpha3.{group_version}
use cluster_api_provider_kub.Platform.{Platform}
use cluster_api_provider_kub.Platform.Lawful.{ControllerLaw}
use cluster_api_provider_kub.Controllers.Machine.Names.{machine_kind}
use cluster_api_provider_kub.Controllers.Cluster.{cluster_kind}
use cluster_api_provider_kub.Controllers.Watches.{
  pod_to_kubernetes_machine, secret_to_kubernetes_machine,
  persistent_volume_claim_to_kubernetes_machine, service_to_kubernetes_cluster,
  kubernetes_cluster_to_kubernetes_machines,
}
use cluster_api_provider_kub.Controllers.Watches.Requests.{owned-enqueues_machine}

-- The group and version of the v1alpha2 types.
abbrev pub v1alpha2_group_version : String
v1alpha2_group_version = "infrastructure.dippynark.co.uk/v1alpha2"

-- An object that an event is about, as far as the maps read it.
pub data Watched : Type 0 where
  of_kubernetes_machine of_kubernetes_cluster of_pod of_secret of_claim of_service :
      ObjectMeta → Watched
  of_machine : Machine → Watched
  of_cluster : Cluster → Watched

-- The maps of Cluster API's package util, for a group and version and a kind; the map that
-- `WatchOnClusterPaused` is given, with its filter; and what the client answers to
-- `KubernetesClusterToKubernetesMachines`.
pub record Mappers : Type 0 where
  pub machine_to_infrastructure : String → String → Machine → List NamespacedName
  pub cluster_to_infrastructure : String → String → Cluster → List NamespacedName
  pub paused_cluster_to_kubernetes_machines : Cluster → List NamespacedName
  pub owner_cluster : ObjectMeta → Result (Option Cluster)
  pub machines : String → Labels → Result (List Machine)

abbrev key_of : ObjectMeta → NamespacedName
key_of m = record { namespace = m.namespace; name = m.name }

module _ (p : Platform) (maps : Mappers) where
  -- `KubernetesMachineReconciler.SetupWithManager`
  unfoldable pub machine_controller_requests : Watched → List NamespacedName
  machine_controller_requests (of_kubernetes_machine m) = key_of m ∷ []
  machine_controller_requests (of_machine m) =
      maps.machine_to_infrastructure group_version machine_kind m
      ++ maps.machine_to_infrastructure v1alpha2_group_version machine_kind m
  machine_controller_requests (of_kubernetes_cluster m) =
      kubernetes_cluster_to_kubernetes_machines maps.owner_cluster maps.machines (some m)
  machine_controller_requests (of_pod m) = pod_to_kubernetes_machine p (some m)
  machine_controller_requests (of_secret m) = secret_to_kubernetes_machine p (some m)
  machine_controller_requests (of_claim m) =
      persistent_volume_claim_to_kubernetes_machine p (some m)
  machine_controller_requests (of_cluster c) = maps.paused_cluster_to_kubernetes_machines c
  machine_controller_requests (of_service m) = []

  -- `KubernetesClusterReconciler.SetupWithManager`
  unfoldable pub cluster_controller_requests : Watched → List NamespacedName
  cluster_controller_requests (of_kubernetes_cluster m) = key_of m ∷ []
  cluster_controller_requests (of_cluster c) =
      maps.cluster_to_infrastructure group_version cluster_kind c
      ++ maps.cluster_to_infrastructure v1alpha2_group_version cluster_kind c
  cluster_controller_requests (of_service m) = service_to_kubernetes_cluster p (some m)
  cluster_controller_requests (of_kubernetes_machine m) = []
  cluster_controller_requests (of_machine m) = []
  cluster_controller_requests (of_pod m) = []
  cluster_controller_requests (of_secret m) = []
  cluster_controller_requests (of_claim m) = []

-- The kinds of object that a KubernetesMachine owns.
pub data Owned : (ObjectMeta → Watched) → Type 0 where
  owned_pod : Owned of_pod
  owned_secret : Owned of_secret
  owned_claim : Owned of_claim

-- Where setting a controller keeps its law, an event of a pod, of a Secret or of a claim that a
-- KubernetesMachine has been made the controller of makes the controller of machines reconcile that
-- machine, in the object's namespace, and nothing else, and makes the controller of clusters
-- reconcile nothing; an event of a Service that it has been made the controller of makes neither
-- reconcile anything.
pub owned-reconciles_machine :
    (p : Platform) (law : ControllerLaw p) (maps : Mappers) (owner m m' : ObjectMeta)
    (of_kind : ObjectMeta → Watched)
    → p.set_controller_reference machine_kind owner m ≡ ok m'
    → Owned of_kind
    → (machine_controller_requests p maps (of_kind m')
        ≡ record { namespace = m.namespace; name = owner.name } ∷ [])
      × (cluster_controller_requests p maps (of_kind m') ≡ [])
      × (machine_controller_requests p maps (of_service m') ≡ [])
      × (cluster_controller_requests p maps (of_service m') ≡ [])
unfolding machine_controller_requests cluster_controller_requests
owned-reconciles_machine p law maps owner m m' of_kind e owned_pod =
    let (pod, _, _, service) = owned-enqueues_machine p law owner m m' e in
    (pod, refl, refl, service)
owned-reconciles_machine p law maps owner m m' of_kind e owned_secret =
    let (_, secret, _, service) = owned-enqueues_machine p law owner m m' e in
    (secret, refl, refl, service)
owned-reconciles_machine p law maps owner m m' of_kind e owned_claim =
    let (_, _, claim, service) = owned-enqueues_machine p law owner m m' e in
    (claim, refl, refl, service)
