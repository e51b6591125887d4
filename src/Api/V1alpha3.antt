-- ===== src/Api/V1alpha3.antt =====
-- api/v1alpha3: KubernetesCluster, KubernetesMachine and KubernetesMachineTemplate.
use cluster_api_provider_kub.Prelude.{ℕ, String, Bool, ◌||◌, Option, some, List, ◌==◌, nat_eq}
use cluster_api_provider_kub.Go.{Error, error_text}
use cluster_api_provider_kub.Kube.{ObjectMeta, PodSpec, PersistentVolumeClaim}

abbrev pub group_version : String
group_version = "infrastructure.dippynark.co.uk/v1alpha3"

abbrev pub kubernetes_cluster_finalizer : String
kubernetes_cluster_finalizer = "kubernetescluster.infrastructure.dippynark.co.uk"

abbrev pub kubernetes_machine_finalizer : String
kubernetes_machine_finalizer = "kubernetesmachine.infrastructure.dippynark.co.uk"

pub record ApiEndpoint : Type 0 where
  pub host : String
  pub port : ℕ

-- `APIEndpoint.IsZero`
unfoldable pub is_zero : ApiEndpoint → Bool
is_zero v = v.host == "" || nat_eq v.port 0

pub record KubernetesClusterSpec : Type 0 where
  pub control_plane_service_type : String
  pub control_plane_endpoint : ApiEndpoint

-- `unset` is the empty string; `other_phase` is any text that the controllers do not write.
pub data KubernetesClusterPhase : Type 0 where
  unset provisioning provisioned failed deleting : KubernetesClusterPhase
  other_phase : String → KubernetesClusterPhase

pub record KubernetesClusterStatus : Type 0 where
  pub failure_reason : Option String
  pub failure_message : Option String
  pub phase : KubernetesClusterPhase
  pub ready : Bool

pub record KubernetesCluster : Type 0 where
  pub meta : ObjectMeta
  pub spec : KubernetesClusterSpec
  pub status : KubernetesClusterStatus

pub record KubernetesMachineSpec : Type 0 where
  pub provider_id : Option String
  pub allow_recreation : Bool
  pub pod_spec : PodSpec
  pub volume_claim_templates : List PersistentVolumeClaim

pub data KubernetesMachinePhase : Type 0 where
  unset pending provisioning running failed deleting : KubernetesMachinePhase
  other_phase : String → KubernetesMachinePhase

pub record KubernetesMachineStatus : Type 0 where
  pub version : Option String
  pub failure_reason : Option String
  pub failure_message : Option String
  pub phase : KubernetesMachinePhase
  pub ready : Bool

pub record KubernetesMachine : Type 0 where
  pub meta : ObjectMeta
  pub spec : KubernetesMachineSpec
  pub status : KubernetesMachineStatus

-- `Spec.Template.Spec` is the only field of the specification.
pub record KubernetesMachineTemplate : Type 0 where
  pub meta : ObjectMeta
  pub template_spec : KubernetesMachineSpec

module _ (s : KubernetesClusterStatus) where
  unfoldable pub set_cluster_failure_reason : String → KubernetesClusterStatus
  set_cluster_failure_reason v = record s { failure_reason = some v }

  unfoldable pub set_cluster_failure_message : Error → KubernetesClusterStatus
  set_cluster_failure_message v = record s { failure_message = some (error_text v) }

module _ (s : KubernetesMachineStatus) where
  unfoldable pub set_machine_failure_reason : String → KubernetesMachineStatus
  set_machine_failure_reason v = record s { failure_reason = some v }

  unfoldable pub set_machine_failure_message : Error → KubernetesMachineStatus
  set_machine_failure_message v = record s { failure_message = some (error_text v) }
