-- ===== src/Tests/Conversions.antt =====
-- The theorems on the conversions between API versions at concrete inputs.
use cluster_api_provider_kub.Prelude.{[], ◌∷◌, ◌≡◌, none, some, true, false}
use cluster_api_provider_kub.Kube.{new_meta}
use cluster_api_provider_kub.Api.V1alpha3
use cluster_api_provider_kub.Api.V1alpha2.{
  KubernetesCluster, KubernetesMachine, KubernetesMachineTemplate, cluster_convert_to,
  cluster_convert_from, machine_convert_to, machine_convert_from, template_convert_to,
  template_convert_from, unset,
}
use cluster_api_provider_kub.Api.V1alpha2.RoundTrip.{round_trip, with_endpoints}
use cluster_api_provider_kub.Tests.Fixtures.{
  new_cluster, served_cluster, provided_machine, new_machine,
}
use cluster_api_provider_kub.Api.V1alpha3.{other_phase}

abbrev blank_cluster : KubernetesCluster
blank_cluster = record {
  meta = new_meta "c" "ns" [];
  spec = record {
    control_plane_service_type = "";
    control_plane_endpoint = record { host = ""; port = 0 };
  };
  status = record {
    error_reason = none;
    error_message = none;
    phase = unset;
    ready = false;
    api_endpoints = [];
  };
}

-- An old cluster with a stale list of endpoints.
abbrev old_cluster : KubernetesCluster
old_cluster = record (cluster_convert_from served_cluster blank_cluster) {
  status = record (blank_cluster.status) {
    api_endpoints = record { host = "10.0.0.9"; port = 6443 } ∷ [];
  };
}

abbrev old_machine : KubernetesMachine
old_machine = record {
  meta = new_machine.meta;
  spec = record {
    provider_id = none;
    allow_recreation = true;
    pod_spec = new_machine.spec.pod_spec;
    volume_claim_templates = [];
  };
  status = record {
    version = none;
    error_reason = none;
    error_message = some "failed";
    phase = unset;
    ready = true;
  };
}

abbrev old_template : KubernetesMachineTemplate
old_template = record { meta = old_machine.meta; template_spec = old_machine.spec }

abbrev template : V1alpha3.KubernetesMachineTemplate
template = record { meta = new_machine.meta; template_spec = new_machine.spec }

round_trip_example :
    ((cluster_convert_to (cluster_convert_from served_cluster blank_cluster) new_cluster
        ≡ served_cluster)
      × (cluster_convert_from (cluster_convert_to old_cluster new_cluster) blank_cluster
          ≡ with_endpoints old_cluster new_cluster blank_cluster))
    × (machine_convert_to (machine_convert_from provided_machine old_machine) new_machine
        ≡ provided_machine)
    × (machine_convert_from (machine_convert_to old_machine new_machine) old_machine ≡ old_machine)
    × (template_convert_to (template_convert_from template old_template) template ≡ template)
    × (template_convert_from (template_convert_to old_template template) old_template
        ≡ old_template)
round_trip_example =
    round_trip served_cluster new_cluster old_cluster blank_cluster provided_machine new_machine
      old_machine old_machine template template old_template old_template
