-- ===== src/Api/V1alpha2.antt =====
-- api/v1alpha2: the older version of the resources, and its conversion to and from v1alpha3.
pub mod RoundTrip
use cluster_api_provider_kub.Prelude.{
  ℕ, String, Bool, Option, some, List, [], ◌∷◌, if◌then◌else◌, ◌||◌, ◌==◌, nat_eq,
}
use cluster_api_provider_kub.Kube.{ObjectMeta, PodSpec, PersistentVolumeClaim}
use cluster_api_provider_kub.Api.V1alpha3
use cluster_api_provider_kub.Go.{Error, error_text}

abbrev pub kubernetes_cluster_finalizer : String
kubernetes_cluster_finalizer = "kubernetescluster.infrastructure.dippynark.co.uk"

abbrev pub kubernetes_machine_finalizer : String
kubernetes_machine_finalizer = "kubernetesmachine.infrastructure.dippynark.co.uk"

pub record ApiEndpoint : Type 0 where
  pub host : String
  pub port : ℕ

-- `APIEndpoint.IsZero`
unfoldable pub is_zero : ApiEndpoint → Bool
is_zero v = v.host == "" || nat_eq v.port 0

-- `unset` is the empty string; `other_phase` is any other text.
pub data KubernetesClusterPhase : Type 0 where
  unset provisioning provisioned failed deleting : KubernetesClusterPhase
  other_phase : String → KubernetesClusterPhase

pub data KubernetesMachinePhase : Type 0 where
  unset pending provisioning running failed deleting : KubernetesMachinePhase
  other_phase : String → KubernetesMachinePhase

pub record KubernetesClusterSpec : Type 0 where
  pub control_plane_service_type : String
  pub control_plane_endpoint : ApiEndpoint

pub record KubernetesClusterStatus : Type 0 where
  pub error_reason : Option String
  pub error_message : Option String
  pub phase : KubernetesClusterPhase
  pub ready : Bool
  pub api_endpoints : List ApiEndpoint

pub record KubernetesCluster : Type 0 where
  pub meta : ObjectMeta
  pub spec : KubernetesClusterSpec
  pub status : KubernetesClusterStatus

pub record KubernetesMachineSpec : Type 0 where
  pub provider_id : Option String
  pub allow_recreation : Bool
  pub pod_spec : PodSpec
  pub volume_claim_templates : List PersistentVolumeClaim

pub record KubernetesMachineStatus : Type 0 where
  pub version : Option String
  pub error_reason : Option String
  pub error_message : Option String
  pub phase : KubernetesMachinePhase
  pub ready : Bool

pub record KubernetesMachine : Type 0 where
  pub meta : ObjectMeta
  pub spec : KubernetesMachineSpec
  pub status : KubernetesMachineStatus

pub record KubernetesMachineTemplate : Type 0 where
  pub meta : ObjectMeta
  pub template_spec : KubernetesMachineSpec

module _ (s : KubernetesClusterStatus) where
  -- `SetErrorReason`
  unfoldable pub set_cluster_error_reason : String → KubernetesClusterStatus
  set_cluster_error_reason v = record s { error_reason = some v }

  -- `SetErrorMessage`
  unfoldable pub set_cluster_error_message : Error → KubernetesClusterStatus
  set_cluster_error_message v = record s { error_message = some (error_text v) }

module _ (s : KubernetesMachineStatus) where
  -- `SetErrorReason`
  unfoldable pub set_machine_error_reason : String → KubernetesMachineStatus
  set_machine_error_reason v = record s { error_reason = some v }

  -- `SetErrorMessage`
  unfoldable pub set_machine_error_message : Error → KubernetesMachineStatus
  set_machine_error_message v = record s { error_message = some (error_text v) }

-- The Go conversions of the phases keep their texts.
unfoldable pub cluster_phase_to : KubernetesClusterPhase → V1alpha3.KubernetesClusterPhase
cluster_phase_to unset = V1alpha3.KubernetesClusterPhase.unset
cluster_phase_to provisioning = V1alpha3.KubernetesClusterPhase.provisioning
cluster_phase_to provisioned = V1alpha3.KubernetesClusterPhase.provisioned
cluster_phase_to failed = V1alpha3.KubernetesClusterPhase.failed
cluster_phase_to deleting = V1alpha3.KubernetesClusterPhase.deleting
cluster_phase_to (other_phase text) = V1alpha3.KubernetesClusterPhase.other_phase text

unfoldable pub cluster_phase_from : V1alpha3.KubernetesClusterPhase → KubernetesClusterPhase
cluster_phase_from V1alpha3.KubernetesClusterPhase.unset = unset
cluster_phase_from V1alpha3.KubernetesClusterPhase.provisioning = provisioning
cluster_phase_from V1alpha3.KubernetesClusterPhase.provisioned = provisioned
cluster_phase_from V1alpha3.KubernetesClusterPhase.failed = failed
cluster_phase_from V1alpha3.KubernetesClusterPhase.deleting = deleting
cluster_phase_from (V1alpha3.KubernetesClusterPhase.other_phase text) = other_phase text

unfoldable pub machine_phase_to : KubernetesMachinePhase → V1alpha3.KubernetesMachinePhase
machine_phase_to unset = V1alpha3.KubernetesMachinePhase.unset
machine_phase_to pending = V1alpha3.KubernetesMachinePhase.pending
machine_phase_to provisioning = V1alpha3.KubernetesMachinePhase.provisioning
machine_phase_to running = V1alpha3.KubernetesMachinePhase.running
machine_phase_to failed = V1alpha3.KubernetesMachinePhase.failed
machine_phase_to deleting = V1alpha3.KubernetesMachinePhase.deleting
machine_phase_to (other_phase text) = V1alpha3.KubernetesMachinePhase.other_phase text

unfoldable pub machine_phase_from : V1alpha3.KubernetesMachinePhase → KubernetesMachinePhase
machine_phase_from V1alpha3.KubernetesMachinePhase.unset = unset
machine_phase_from V1alpha3.KubernetesMachinePhase.pending = pending
machine_phase_from V1alpha3.KubernetesMachinePhase.provisioning = provisioning
machine_phase_from V1alpha3.KubernetesMachinePhase.running = running
machine_phase_from V1alpha3.KubernetesMachinePhase.failed = failed
machine_phase_from V1alpha3.KubernetesMachinePhase.deleting = deleting
machine_phase_from (V1alpha3.KubernetesMachinePhase.other_phase text) = other_phase text

-- The Go conversions of `APIEndpoint`.
endpoint_to : ApiEndpoint → V1alpha3.ApiEndpoint
endpoint_to e = record { host = e.host; port = e.port }

endpoint_from : V1alpha3.ApiEndpoint → ApiEndpoint
endpoint_from e = record { host = e.host; port = e.port }

-- `KubernetesCluster.ConvertTo`, into `dst`.
unfoldable pub cluster_convert_to :
    KubernetesCluster → V1alpha3.KubernetesCluster → V1alpha3.KubernetesCluster
unfolding endpoint_to
cluster_convert_to src dst = record {
  meta = src.meta;
  spec = record {
    control_plane_service_type = src.spec.control_plane_service_type;
    control_plane_endpoint = endpoint_to src.spec.control_plane_endpoint;
  };
  status = record {
    failure_reason = src.status.error_reason;
    failure_message = src.status.error_message;
    phase = cluster_phase_to src.status.phase;
    ready = src.status.ready;
  };
}

-- `KubernetesCluster.ConvertFrom`, into `dst`: its list of endpoints stays where the endpoint of
-- `src` is not set.
unfoldable pub cluster_convert_from :
    V1alpha3.KubernetesCluster → KubernetesCluster → KubernetesCluster
unfolding endpoint_from
cluster_convert_from src dst = record {
  meta = src.meta;
  spec = record {
    control_plane_service_type = src.spec.control_plane_service_type;
    control_plane_endpoint = endpoint_from src.spec.control_plane_endpoint;
  };
  status = record {
    error_reason = src.status.failure_reason;
    error_message = src.status.failure_message;
    phase = cluster_phase_from src.status.phase;
    ready = src.status.ready;
    api_endpoints =
        if V1alpha3.is_zero src.spec.control_plane_endpoint
        then dst.status.api_endpoints
        else endpoint_from src.spec.control_plane_endpoint ∷ [];
  };
}

machine_spec_to : KubernetesMachineSpec → V1alpha3.KubernetesMachineSpec
machine_spec_to s = record {
  provider_id = s.provider_id;
  allow_recreation = s.allow_recreation;
  pod_spec = s.pod_spec;
  volume_claim_templates = s.volume_claim_templates;
}

machine_spec_from : V1alpha3.KubernetesMachineSpec → KubernetesMachineSpec
machine_spec_from s = record {
  provider_id = s.provider_id;
  allow_recreation = s.allow_recreation;
  pod_spec = s.pod_spec;
  volume_claim_templates = s.volume_claim_templates;
}

-- `KubernetesMachine.ConvertTo`
unfoldable pub machine_convert_to :
    KubernetesMachine → V1alpha3.KubernetesMachine → V1alpha3.KubernetesMachine
unfolding machine_spec_to
machine_convert_to src dst = record {
  meta = src.meta;
  spec = machine_spec_to src.spec;
  status = record {
    version = src.status.version;
    failure_reason = src.status.error_reason;
    failure_message = src.status.error_message;
    phase = machine_phase_to src.status.phase;
    ready = src.status.ready;
  };
}

-- `KubernetesMachine.ConvertFrom`
unfoldable pub machine_convert_from :
    V1alpha3.KubernetesMachine → KubernetesMachine → KubernetesMachine
unfolding machine_spec_from
machine_convert_from src dst = record {
  meta = src.meta;
  spec = machine_spec_from src.spec;
  status = record {
    version = src.status.version;
    error_reason = src.status.failure_reason;
    error_message = src.status.failure_message;
    phase = machine_phase_from src.status.phase;
    ready = src.status.ready;
  };
}

-- `KubernetesMachineTemplate.ConvertTo`
unfoldable pub template_convert_to :
    KubernetesMachineTemplate
    → V1alpha3.KubernetesMachineTemplate
    → V1alpha3.KubernetesMachineTemplate
unfolding machine_spec_to
template_convert_to src dst = record {
  meta = src.meta;
  template_spec = machine_spec_to src.template_spec;
}

-- `KubernetesMachineTemplate.ConvertFrom`
unfoldable pub template_convert_from :
    V1alpha3.KubernetesMachineTemplate → KubernetesMachineTemplate → KubernetesMachineTemplate
unfolding machine_spec_from
template_convert_from src dst = record {
  meta = src.meta;
  template_spec = machine_spec_from src.template_spec;
}
