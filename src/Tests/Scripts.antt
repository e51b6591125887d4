-- ===== src/Tests/Scripts.antt =====
-- The theorems on watches, conversions, QoS classes and scripts at concrete inputs.
use cluster_api_provider_kub.Prelude.{
  none, [], ◌∷◌, ◌≡◌, refl, codes, In, ◌↔◌, arith, ◌≢◌, inr, ◌++◌, List, String,
}
use cluster_api_provider_kub.Go.{ok}
use cluster_api_provider_kub.Go.Base64.{encode}
use cluster_api_provider_kub.Kube.{Machine, new_meta, NamespacedName, Pod, Quantity}
use cluster_api_provider_kub.CloudInit.Contents.{fix_content-encode}
use cluster_api_provider_kub.CloudInit.WriteFiles.{fix_content, fix_encoding, base64, gzip}
use cluster_api_provider_kub.Utils.Qos.{guaranteed, get_pod_qos}
use cluster_api_provider_kub.Utils.Qos.Reference.{get_pod_qos-qos_class, qos_class}
use cluster_api_provider_kub.Controllers.Watches.{machine_requests}
use cluster_api_provider_kub.Controllers.Watches.Setup.{
  Mappers, of_pod, of_service, owned_pod, machine_controller_requests, cluster_controller_requests,
  owned-reconciles_machine,
}
use cluster_api_provider_kub.Controllers.Watches.Requests.{machine_requests_iff}
use cluster_api_provider_kub.Controllers.Machine.Names.{machine_kind}
use cluster_api_provider_kub.Tests.Laws.{empty_platform-ControllerLaw}
use cluster_api_provider_kub.Tests.MachineRuns.{machine_runs}
use cluster_api_provider_kub.Tests.Fixtures.{
  empty_platform, simple_parsers, running_pod, worker, owned_meta, new_machine, kind_container,
}

-- A pod's metadata that the fixtures' machine is made the controller of.
owned_meta_set :
    empty_platform.set_controller_reference machine_kind new_machine.meta (new_meta "km" "ns" [])
    ≡ ok owned_meta
owned_meta_set = refl

-- Maps that find nothing.
abbrev no_maps : Mappers
no_maps = record {
  machine_to_infrastructure = λ _ _ _. [];
  cluster_to_infrastructure = λ _ _ _. [];
  paused_cluster_to_kubernetes_machines = λ _. [];
  owner_cluster = λ _. ok none;
  machines = λ _ _. ok [];
}

owned-reconciles_machine_example :
    (machine_controller_requests empty_platform no_maps (of_pod owned_meta)
      ≡ record { namespace = "ns"; name = "km" } ∷ [])
    × (cluster_controller_requests empty_platform no_maps (of_pod owned_meta) ≡ [])
    × (machine_controller_requests empty_platform no_maps (of_service owned_meta) ≡ [])
    × (cluster_controller_requests empty_platform no_maps (of_service owned_meta) ≡ [])
owned-reconciles_machine_example =
    owned-reconciles_machine empty_platform empty_platform-ControllerLaw no_maps new_machine.meta
      (new_meta "km" "ns" []) owned_meta of_pod owned_meta_set owned_pod

abbrev machine_request : NamespacedName
machine_request = record { namespace = "ns"; name = "m" }

machine_requests_iff_example : In machine_request (machine_requests (worker ∷ [])) ↔ (
    (m : Machine) × In m (worker ∷ [])
    × (m.infrastructure_ref ≢ "")
    × (machine_request ≡ record { namespace = m.meta.namespace; name = m.meta.name }))
machine_requests_iff_example = machine_requests_iff (worker ∷ []) machine_request

abbrev amounts : List (String × Quantity)
amounts = ("cpu", record { canonical = "1" }) ∷ ("memory", record { canonical = "2Gi" }) ∷ []

-- A pod whose one container asks for what it is limited to.
abbrev guaranteed_pod : Pod
guaranteed_pod = record running_pod {
  spec = record (running_pod.spec) {
    containers =
        record kind_container { resources = record { requests = amounts; limits = amounts } } ∷ [];
  };
}

guaranteed_pod_is_guaranteed : get_pod_qos empty_platform guaranteed_pod ≡ guaranteed
unfolding machine_runs
guaranteed_pod_is_guaranteed = refl

get_pod_qos-qos_class_example :
    get_pod_qos empty_platform guaranteed_pod
    ≡ qos_class empty_platform
        (guaranteed_pod.spec.containers ++ guaranteed_pod.spec.init_containers)
get_pod_qos-qos_class_example = get_pod_qos-qos_class empty_platform guaranteed_pod

both_encodings : fix_encoding simple_parsers (codes "gz+base64") ≡ base64 ∷ gzip ∷ []
unfolding machine_runs
both_encodings = refl

fix_content-encode_example :
    fix_content simple_parsers
      (encode (31 ∷ 139 ∷ []))
      (fix_encoding simple_parsers (codes "gz+base64"))
    ≡ ok (31 ∷ 139 ∷ [])
fix_content-encode_example =
    fix_content-encode simple_parsers (codes "gz+base64") (31 ∷ 139 ∷ []) (ground arith)
      (inr both_encodings)
