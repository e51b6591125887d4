-- ===== src/Process.antt =====
-- main.go: the flags, and what the process sets up before it starts its manager.
pub mod Startup
pub mod Types
use cluster_api_provider_kub.Prelude.{
  ℕ, String, Bool, List, [], ◌∷◌, Option, none, some, if◌then◌else◌, nat_eq, false,
}
use cluster_api_provider_kub.Go.{Error}
use cluster_api_provider_kub.Api.Registration.{
  GroupVersion, GroupVersionKind, v1alpha3, v1alpha2, core_v1, cluster_v1,
}

-- The flags, each with its default. `int` is carried as its bit pattern: the port is compared with
-- zero and passed on.
pub record Flags : Type 0 where
  pub metrics_addr : String
  pub namespace : String
  pub webhook_port : ℕ
  pub enable_leader_election : Bool
  pub debug : Bool

-- ctrl.Options, as far as main.go sets them; `Scheme` is the process's one scheme.
pub record Options : Type 0 where
  pub metrics_bind_address : String
  pub leader_election : Bool
  pub leader_election_id : String
  pub port : ℕ
  pub namespace : String

-- The calls of main.go and of both `SetupWithManager` that can fail.
pub data Setup : Type 0 where
  get_config new_core_client start : Setup
  new_manager : Options → Setup
  -- `Complete` and `Build` of a controller, for a type and with watches on others.
  build_controller : GroupVersionKind → List GroupVersionKind → Setup
  -- util.ClusterToObjectsMapper for a list, and util.WatchOnClusterPaused.
  new_cluster_mapper : GroupVersionKind → Setup
  watch_on_cluster_paused : Setup
  -- `Complete` of a webhook for a type.
  build_webhook : GroupVersionKind → Setup

-- What the process called, newest first, and the code that it exits with.
pub record Exited : Type 0 where
  pub calls : List Setup
  pub code : ℕ

-- What a call answers after the calls before it.
abbrev pub Answers : Type 0
Answers = List Setup → Setup → Option Error

abbrev pub own_kind : GroupVersion → String → GroupVersionKind
own_kind version kind' = record { group_version = version; kind = kind' }

abbrev pub default_flags : Flags
default_flags = record {
  metrics_addr = ":8080";
  namespace = "";
  webhook_port = 0;
  enable_leader_election = false;
  debug = false;
}

unfoldable pub options : Flags → Options
options flags = record {
  metrics_bind_address = flags.metrics_addr;
  leader_election = flags.enable_leader_election;
  leader_election_id = "controller-leader-election-capk";
  port = flags.webhook_port;
  namespace = flags.namespace;
}

module _ (answers : Answers) where
  unfoldable pub answered : Setup → (List Setup → Exited) → Option Error → List Setup → Exited
  answered call next (some e) log = record { calls = call ∷ log; code = 1 }
  answered call next none log = next (call ∷ log)

  -- A call, after whose error the process exits.
  unfoldable pub attempt : Setup → (List Setup → Exited) → List Setup → Exited
  unfolding answered
  attempt call next log = answered call next (answers log call) log

  -- From `starting manager` on.
  unfoldable pub start_manager : List Setup → Exited
  unfolding attempt
  start_manager log = attempt start (λ log'. record { calls = log'; code = 0 }) log

  -- `SetupWithManager` of the controller of clusters, with the check in main.
  unfoldable pub setup_cluster_controller : (List Setup → Exited) → List Setup → Exited
  unfolding attempt
  setup_cluster_controller next log =
      attempt
        (build_controller (own_kind v1alpha3 "KubernetesCluster") (
          own_kind cluster_v1 "Cluster"
          ∷ own_kind cluster_v1 "Cluster"
          ∷ own_kind core_v1 "Service"
          ∷ []))
        next log

  -- `SetupWithManager` of the controller of machines, with the check in main.
  unfoldable pub setup_machine_controller : (List Setup → Exited) → List Setup → Exited
  unfolding attempt
  setup_machine_controller next log =
      attempt
        (build_controller (own_kind v1alpha3 "KubernetesMachine") (
          own_kind cluster_v1 "Machine"
          ∷ own_kind cluster_v1 "Machine"
          ∷ own_kind v1alpha3 "KubernetesCluster"
          ∷ own_kind core_v1 "Pod"
          ∷ own_kind core_v1 "Secret"
          ∷ own_kind core_v1 "PersistentVolumeClaim"
          ∷ []))
        (attempt (new_cluster_mapper (own_kind v1alpha3 "KubernetesMachineList"))
          (attempt watch_on_cluster_paused next))
        log

  unfoldable pub setup_controllers : List Setup → Exited
  unfolding attempt setup_cluster_controller setup_machine_controller start_manager
  setup_controllers log =
      setup_cluster_controller (attempt new_core_client (setup_machine_controller start_manager))
        log

  unfoldable pub setup_webhooks : List Setup → Exited
  unfolding attempt start_manager
  setup_webhooks log =
      attempt (build_webhook (own_kind v1alpha3 "KubernetesCluster"))
        (attempt (build_webhook (own_kind v1alpha3 "KubernetesMachine")) (
          attempt (build_webhook (own_kind v1alpha3 "KubernetesMachineTemplate"))
            (attempt (build_webhook (own_kind v1alpha2 "KubernetesMachine")) start_manager)))
        log

  -- `main`
  unfoldable pub main : Flags → Exited
  unfolding attempt options setup_controllers setup_webhooks
  main flags =
      attempt get_config
        (attempt (new_manager (options flags)) (λ log.
          if nat_eq flags.webhook_port 0 then setup_controllers log else setup_webhooks log))
        []
