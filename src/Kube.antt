-- ===== src/Kube.antt =====
-- The Kubernetes and Cluster API objects that the controllers read and write: the fields of
-- k8s.io/api/core/v1, k8s.io/apimachinery and sigs.k8s.io/cluster-api/api/v1alpha3 that the sources
-- name. Where the sources copy a struct whole, `rest` stands for its other fields.
-- An `int32` is carried as its bit pattern: the sources only copy ports and compare them.
use cluster_api_provider_kub.Prelude.{ℕ, String, Bool, Option, none, List, []}
use cluster_api_provider_kub.Go.Text.{Bytes}

abbrev pub Labels : Type 0
Labels = List (String × String)

pub record NamespacedName : Type 0 where
  pub namespace : String
  pub name : String

pub record OwnerReference : Type 0 where
  pub api_version : String
  pub kind : String
  pub name : String
  pub uid : String
  pub controller : Bool

pub record ObjectMeta : Type 0 where
  pub name : String
  pub namespace : String
  pub uid : String
  pub labels : Labels
  pub annotations : Labels
  pub finalizers : List String
  pub owner_references : List OwnerReference
  pub deletion_timestamp : Option ℕ

-- The `ObjectMeta` literal of an object that the controllers create.
abbrev pub new_meta : String → String → Labels → ObjectMeta
new_meta name' namespace' labels' = record {
  name = name';
  namespace = namespace';
  uid = "";
  labels = labels';
  annotations = [];
  finalizers = [];
  owner_references = [];
  deletion_timestamp = none;
}

-- resource.Quantity in its canonical form.
pub record Quantity : Type 0 where
  pub canonical : String

abbrev pub ResourceList : Type 0
ResourceList = List (String × Quantity)

pub record ResourceRequirements : Type 0 where
  pub requests : ResourceList
  pub limits : ResourceList

pub record SecurityContext : Type 0 where
  pub privileged : Option Bool
  pub rest : String

pub data IntOrString : Type 0 where
  from_int : ℕ → IntOrString
  from_string : String → IntOrString

pub data Handler : Type 0 where
  tcp_socket : IntOrString → Handler
  other_handler : String → Handler

pub record Probe : Type 0 where
  pub period_seconds : ℕ
  pub failure_threshold : ℕ
  pub handler : Handler
  pub rest : String

pub record ContainerPort : Type 0 where
  pub name : String
  pub protocol : String
  pub container_port : ℕ
  pub rest : String

pub record VolumeMount : Type 0 where
  pub name : String
  pub mount_path : String
  pub sub_path : String
  pub read_only : Bool
  pub rest : String

pub record Container : Type 0 where
  pub name : String
  pub image : String
  pub resources : ResourceRequirements
  pub security_context : Option SecurityContext
  pub tty : Bool
  pub volume_mounts : List VolumeMount
  pub readiness_probe : Option Probe
  pub ports : List ContainerPort
  pub rest : String

-- `corev1.Container{}`
abbrev pub empty_container : Container
empty_container = record {
  name = "";
  image = "";
  resources = record { requests = []; limits = [] };
  security_context = none;
  tty = Bool.false;
  volume_mounts = [];
  readiness_probe = none;
  ports = [];
  rest = "";
}

pub data VolumeSource : Type 0 where
  empty_dir : String → VolumeSource
  host_path : String → String → VolumeSource
  secret : String → List String → Option ℕ → VolumeSource
  persistent_volume_claim : String → Bool → VolumeSource
  other_source : String → VolumeSource

pub record Volume : Type 0 where
  pub name : String
  pub source : VolumeSource

pub record PodSpec : Type 0 where
  pub containers : List Container
  pub init_containers : List Container
  pub volumes : List Volume
  pub hostname : String
  pub restart_policy : String
  pub rest : String

pub data ConditionStatus : Type 0 where
  condition_true condition_false condition_unknown : ConditionStatus

pub record PodCondition : Type 0 where
  pub type : String
  pub status : ConditionStatus

-- The pointers of a `ContainerState`; `terminated` is the reason.
pub record ContainerState : Type 0 where
  pub running : Bool
  pub terminated : Option String

pub record ContainerStatus : Type 0 where
  pub name : String
  pub state : ContainerState
  pub ready : Bool

pub record PodStatus : Type 0 where
  pub conditions : List PodCondition
  pub container_statuses : List ContainerStatus

pub record Pod : Type 0 where
  pub meta : ObjectMeta
  pub spec : PodSpec
  pub status : PodStatus

pub record Secret : Type 0 where
  pub meta : ObjectMeta
  pub contents : List (String × Bytes)
  pub string_data : List (String × Bytes)

pub record PersistentVolumeClaim : Type 0 where
  pub meta : ObjectMeta
  pub rest : String

pub record ServicePort : Type 0 where
  pub name : String
  pub protocol : String
  pub port : ℕ
  pub target_port : IntOrString

pub record ServiceSpec : Type 0 where
  pub selector : Labels
  pub ports : List ServicePort
  pub type : String
  pub cluster_ip : String
  pub load_balancer_ip : String

pub record LoadBalancerIngress : Type 0 where
  pub ip : String
  pub hostname : String

pub record Service : Type 0 where
  pub meta : ObjectMeta
  pub spec : ServiceSpec
  pub ingress : List LoadBalancerIngress

-- Cluster API's Cluster: `api_server_port` is `Spec.ClusterNetwork.APIServerPort`, behind two
-- pointers.
pub record Cluster : Type 0 where
  pub meta : ObjectMeta
  pub paused : Bool
  pub infrastructure_ref : Option String
  pub cluster_network : Option (Option ℕ)
  pub infrastructure_ready : Bool

-- Cluster API's Machine: `data_secret_name` is `Spec.Bootstrap.DataSecretName`.
pub record Machine : Type 0 where
  pub meta : ObjectMeta
  pub version : Option String
  pub data_secret_name : Option String
  pub infrastructure_ref : String
