-- ===== src/Tests/Fixtures.antt =====
-- A platform that answers from fixed objects, and objects for it.
use cluster_api_provider_kub.Prelude.{
  String, true, false, not, Option, none, some, List, [], ◌∷◌, ◌++◌, if◌then◌else◌, ◌==◌, codes,
  any,
}
use cluster_api_provider_kub.Go.{status, not_found, Result, ok, err}
use cluster_api_provider_kub.Kube.{
  ObjectMeta, new_meta, OwnerReference, Pod, Container, empty_container, Secret, Cluster, Machine,
  from_string, from_int, condition_true, IntOrString, Service,
}
use cluster_api_provider_kub.Api.V1alpha3.{
  KubernetesMachine, KubernetesMachinePhase, group_version, KubernetesCluster,
  kubernetes_machine_finalizer, KubernetesClusterPhase,
}
use cluster_api_provider_kub.CloudInit.Parsers.{Parsers}
use cluster_api_provider_kub.Platform.{Platform}

abbrev pub missing : {A : Type 0} → Result A
missing = err (status not_found "not found")

abbrev pub find_controller : List OwnerReference → Option OwnerReference
find_controller [] = none
find_controller (r ∷ refs) = if r.controller then some r else find_controller refs

abbrev pub without : List String → String → List String
without [] f = []
without (g ∷ fs) f = if g == f then without fs f else g ∷ without fs f

abbrev pub own : String → ObjectMeta → ObjectMeta → Result ObjectMeta
own kind' owner m = ok (record m {
  owner_references =
      record {
        api_version = group_version;
        kind = kind';
        name = owner.name;
        uid = owner.uid;
        controller = true;
      }
      ∷ m.owner_references;
})

abbrev pub text_of : IntOrString → String
text_of (from_string s) = s
text_of (from_int _) = "a number"

abbrev pub simple_parsers : Parsers
simple_parsers = record {
  yaml_map = λ _. none;
  yaml_write_files = λ _. ok [];
  yaml_runcmd = λ _. ok [];
  json = λ _. none;
  new_reader = λ s. ok s;
  read_from = λ s. ok s;
  lower_run = λ s. s;
  quote_run = λ s. s;
  json_error = λ _. "invalid character";
}

-- No object exists, every write succeeds and every command runs.
abbrev pub empty_platform : Platform
empty_platform = record {
  kubernetes_machine = λ _ _. missing;
  kubernetes_cluster = λ _ _. missing;
  pod = λ _ _. missing;
  secret = λ _ _. missing;
  service = λ _ _. missing;
  persistent_volume_claim = λ _ _. missing;
  pods = λ _ _ _. ok [];
  owner_machine = λ _ _. ok none;
  owner_cluster = λ _ _. ok none;
  cluster_from_metadata = λ _ _. ok none;
  pod_created = λ _ _. none;
  pod_deleted = λ _ _. none;
  secret_created = λ _ s. (s, none);
  service_created = λ _ _. none;
  persistent_volume_claim_created = λ _ _. none;
  executed = λ _ _. record { stdout = ""; stderr = ""; error = none };
  new_helper = none;
  machine_patched = λ _ _. none;
  cluster_patched = λ _ _. none;
  is_paused = λ c _. c.paused;
  is_control_plane_machine = λ m. any (λ l. l.0 == "cluster.x-k8s.io/control-plane") m.meta.labels;
  add_finalizer = λ fs f. if any (λ g. g == f) fs then fs else fs ++ f ∷ [];
  remove_finalizer = without;
  get_controller_of = λ m. find_controller m.owner_references;
  set_controller_reference = own;
  port_text = text_of;
  quantity_gt = λ a b. not (a.canonical == b.canonical);
  quantity_eq = λ a b. a.canonical == b.canonical;
  quantity_add = λ a _. a;
  aggregate_text = λ _. "errors";
  range_claims = λ claims. claims;
  parsers = simple_parsers;
}

abbrev pub cluster : Cluster
cluster = record {
  meta = new_meta "c" "ns" [];
  paused = false;
  infrastructure_ref = some "c";
  cluster_network = none;
  infrastructure_ready = true;
}

abbrev pub worker : Machine
worker = record {
  meta = new_meta "m" "ns" [];
  version = some "v1.18.0";
  data_secret_name = some "m-data";
  infrastructure_ref = "km";
}

abbrev pub controller : Machine
controller = record worker {
  meta = new_meta "m" "ns" (("cluster.x-k8s.io/control-plane", "") ∷ []);
}

abbrev pub kind_container : Container
kind_container = record empty_container { name = "kind" }

abbrev pub new_machine : KubernetesMachine
new_machine = record {
  meta = record (new_meta "km" "ns" []) { uid = "uid-1" };
  spec = record {
    provider_id = none;
    allow_recreation = false;
    pod_spec = record {
      containers = [];
      init_containers = [];
      volumes = [];
      hostname = "";
      restart_policy = "";
      rest = "";
    };
    volume_claim_templates = [];
  };
  status = record {
    version = none;
    failure_reason = none;
    failure_message = none;
    phase = KubernetesMachinePhase.unset;
    ready = false;
  };
}

abbrev pub provided_machine : KubernetesMachine
provided_machine = record new_machine {
  spec = record (new_machine.spec) { provider_id = some "kubernetes://ns/km" };
}

abbrev pub owned_meta : ObjectMeta
owned_meta = record (new_meta "km" "ns" []) {
  owner_references =
      record {
        api_version = group_version;
        kind = "KubernetesMachine";
        name = "km";
        uid = "uid-1";
        controller = true;
      }
      ∷ [];
}

abbrev pub running_pod : Pod
running_pod = record {
  meta = owned_meta;
  spec = record (new_machine.spec.pod_spec) { containers = kind_container ∷ [] };
  status = record {
    conditions = record { type = "Ready"; status = condition_true } ∷ [];
    container_statuses =
        record { name = "kind"; state = record { running = true; terminated = none }; ready = true }
        ∷ [];
  };
}

abbrev pub bootstrap_secret : Secret
bootstrap_secret = record {
  meta = new_meta "m-data" "ns" [];
  contents = ("value", codes "#cloud-config\n") ∷ [];
  string_data = [];
}

-- The machine's pod runs and is ready, and its bootstrap data is there.
abbrev pub running_platform : Platform
running_platform = record empty_platform {
  pod = λ _ _. ok running_pod;
  secret = λ _ _. ok bootstrap_secret;
  pods = λ _ _ _. ok (running_pod ∷ []);
}

-- A machine that failed when its pod's container ended.
abbrev pub failed_machine : KubernetesMachine
failed_machine = record provided_machine {
  status = record (new_machine.status) {
    failure_reason = some "CreateError";
    failure_message = some "kind container has terminated: Error";
  };
}

-- A machine that is being deleted and holds a finalizer.
abbrev pub leaving_machine : KubernetesMachine
leaving_machine = record provided_machine {
  meta = record (provided_machine.meta) {
    finalizers = kubernetes_machine_finalizer ∷ [];
    deletion_timestamp = some 1;
  };
}

abbrev pub new_cluster : KubernetesCluster
new_cluster = record {
  meta = record (new_meta "c" "ns" []) { uid = "uid-2" };
  spec = record {
    control_plane_service_type = "ClusterIP";
    control_plane_endpoint = record { host = ""; port = 0 };
  };
  status = record {
    failure_reason = none;
    failure_message = none;
    phase = KubernetesClusterPhase.unset;
    ready = false;
  };
}

abbrev pub served_cluster : KubernetesCluster
served_cluster = record new_cluster {
  spec = record (new_cluster.spec) {
    control_plane_endpoint = record { host = "10.0.0.1"; port = 443 };
  };
}

-- The metadata of an object that the cluster controls.
abbrev pub cluster_owned_meta : ObjectMeta
cluster_owned_meta = record (new_meta "c-api-server" "ns" []) {
  owner_references =
      record {
        api_version = group_version;
        kind = "KubernetesCluster";
        name = "c";
        uid = "uid-2";
        controller = true;
      }
      ∷ [];
}

abbrev pub served_service : Service
served_service = record {
  meta = cluster_owned_meta;
  spec = record {
    selector = [];
    ports =
        record {
          name = "https";
          protocol = "TCP";
          port = 443;
          target_port = from_string "kube-apiserver";
        }
        ∷ [];
    type = "ClusterIP";
    cluster_ip = "10.0.0.1";
    load_balancer_ip = "";
  };
  ingress = [];
}

-- The cluster's Service is there.
abbrev pub serving_platform : Platform
serving_platform = record empty_platform { service = λ _ _. ok served_service }

abbrev pub bare_cluster : Cluster
bare_cluster = record cluster { infrastructure_ref = none }

-- The KubernetesMachine is there with its owner and its cluster, which has no infrastructure.
abbrev pub bare_platform : Platform
bare_platform = record running_platform {
  kubernetes_machine = λ _ _. ok new_machine;
  owner_machine = λ _ _. ok (some worker);
  cluster_from_metadata = λ _ _. ok (some bare_cluster);
}

-- A container that the user names, with no resources.
abbrev pub user_container : Container
user_container = record empty_container { name = "app"; image = "app:1" }

abbrev pub pod_of : List Container → Pod
pod_of containers' = record running_pod {
  spec = record (running_pod.spec) { containers = containers' };
}
