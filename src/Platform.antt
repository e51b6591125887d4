-- ===== src/Platform.antt =====
-- The code that the controllers call and that stands outside this repository: the API server behind
-- controller-runtime's and client-go's clients, `pods/exec`, and the helpers of controller-runtime,
-- apimachinery and Cluster API. It is a parameter of the controllers.
-- Each call that leaves the process is recorded, newest first, and its answer may depend on all the
-- calls before it: so a platform can be any API server, with other clients, and fail at any point.
pub mod Lawful
use cluster_api_provider_kub.Prelude.{ℕ, String, Bool, Option, List}
use cluster_api_provider_kub.Go.{Error, Result}
use cluster_api_provider_kub.Kube.{
  Labels, NamespacedName, OwnerReference, ObjectMeta, Quantity, IntOrString, Pod, Secret,
  PersistentVolumeClaim, Service, Cluster, Machine,
}
use cluster_api_provider_kub.Api.V1alpha3.{KubernetesCluster, KubernetesMachine}
use cluster_api_provider_kub.CloudInit.Parsers.{Parsers}

-- corev1.PodExecOptions
pub record PodExecOptions : Type 0 where
  pub container : String
  pub command : List String
  pub stdin : Bool
  pub stdout : Bool
  pub stderr : Bool
  pub tty : Bool

-- A POST to the subresource "exec" of a pod, with what the stream reads as its input.
pub record ExecRequest : Type 0 where
  pub pod_name : String
  pub namespace : String
  pub options : PodExecOptions
  pub input : Option String

-- What the stream wrote, and the error of its executor or of the stream.
pub record ExecResult : Type 0 where
  pub stdout : String
  pub stderr : String
  pub error : Option Error

pub data Call : Type 0 where
  get_kubernetes_machine get_kubernetes_cluster get_pod get_secret get_service :
      NamespacedName → Call
  get_persistent_volume_claim : NamespacedName → Call
  get_owner_machine get_owner_cluster get_cluster_from_metadata : ObjectMeta → Call
  list_pods : String → Labels → Call
  create_pod delete_pod : Pod → Call
  create_secret : Secret → Call
  create_service : Service → Call
  create_persistent_volume_claim : PersistentVolumeClaim → Call
  exec : ExecRequest → Call
  patch_machine : KubernetesMachine → Call
  patch_cluster : KubernetesCluster → Call

abbrev pub Log : Type 0
Log = List Call

pub record Platform : Type 0 where
  -- Reads.
  pub kubernetes_machine : Log → NamespacedName → Result KubernetesMachine
  pub kubernetes_cluster : Log → NamespacedName → Result KubernetesCluster
  pub pod : Log → NamespacedName → Result Pod
  pub secret : Log → NamespacedName → Result Secret
  pub service : Log → NamespacedName → Result Service
  pub persistent_volume_claim : Log → NamespacedName → Result PersistentVolumeClaim
  pub pods : Log → String → Labels → Result (List Pod)
  -- util.GetOwnerMachine, util.GetOwnerCluster and util.GetClusterFromMetadata, with their pointers.
  pub owner_machine : Log → ObjectMeta → Result (Option Machine)
  pub owner_cluster : Log → ObjectMeta → Result (Option Cluster)
  pub cluster_from_metadata : Log → ObjectMeta → Result (Option Cluster)
  -- Writes. A client's `Create` fills its argument with the object as the server returns it.
  pub pod_created : Log → Pod → Option Error
  pub pod_deleted : Log → Pod → Option Error
  pub secret_created : Log → Secret → Secret × Option Error
  pub service_created : Log → Service → Option Error
  pub persistent_volume_claim_created : Log → PersistentVolumeClaim → Option Error
  pub executed : Log → ExecRequest → ExecResult
  -- patch.NewHelper and the `Patch` of a helper.
  pub new_helper : Option Error
  pub machine_patched : Log → KubernetesMachine → Option Error
  pub cluster_patched : Log → KubernetesCluster → Option Error
  -- Pure helpers.
  pub is_paused : Cluster → ObjectMeta → Bool
  pub is_control_plane_machine : Machine → Bool
  pub add_finalizer : List String → String → List String
  pub remove_finalizer : List String → String → List String
  pub get_controller_of : ObjectMeta → Option OwnerReference
  -- controllerutil.SetControllerReference(owner, controlled, scheme), with the owner's kind.
  pub set_controller_reference : String → ObjectMeta → ObjectMeta → Result ObjectMeta
  -- `IntOrString.String`, and the quantities' `Cmp` (whether it is 1, whether it is 0) and `Add`.
  pub port_text : IntOrString → String
  pub quantity_gt : Quantity → Quantity → Bool
  pub quantity_eq : Quantity → Quantity → Bool
  pub quantity_add : Quantity → Quantity → Quantity
  -- The text of an `errors.NewAggregate` of errors with these texts.
  pub aggregate_text : List String → String
  -- The order in which `range` visits the entries of a map of claims.
  pub range_claims : List (String × PersistentVolumeClaim) → List (String × PersistentVolumeClaim)
  pub parsers : Parsers
