-- ===== src/Controllers/Machine/Normal.antt =====
-- `KubernetesMachineReconciler.reconcileNormal`, in the stages between its early returns.
use cluster_api_provider_kub.Prelude.{
  ◌*◌, String, Bool, true, false, not, ◌||◌, Option, none, some, List, [], ◌∷◌, if◌then◌else◌, ◌==◌,
  ◌<>◌, is_some,
}
use cluster_api_provider_kub.Go.{
  Error, message, wrapped, Result, ok, err, Outcome, done, fail, panic,
}
use cluster_api_provider_kub.Go.Text.{Bytes}
use cluster_api_provider_kub.Kube.{
  Labels, NamespacedName, ObjectMeta, ContainerStatus, Pod, Secret, Cluster, Machine,
}
use cluster_api_provider_kub.Api.V1alpha3.{
  KubernetesMachine, kubernetes_machine_finalizer, set_machine_failure_reason,
  set_machine_failure_message,
}
use cluster_api_provider_kub.Platform.{Platform, Log, get_pod, delete_pod, create_secret, list_pods}
use cluster_api_provider_kub.Utils.PodStatus.{get_container_status, is_pod_ready}
use cluster_api_provider_kub.Utils.Exec.{kind_container_name, kind_container_exec}
use cluster_api_provider_kub.Controllers.Common.{
  second, Run, stop, stop_with, requeue, panic_run, is_not_found, is_already_exists,
}
use cluster_api_provider_kub.Controllers.Machine.Names.{
  cluster_label_name, machine_control_plane_label_name, machine_pod_name, machine_pod_node_name,
  get_provider_id_from_pod,
}
use cluster_api_provider_kub.Controllers.Machine.Claims.{create_persistent_volume_claims}
use cluster_api_provider_kub.Controllers.Machine.MachinePod.{create_machine_pod}
use cluster_api_provider_kub.Controllers.Machine.Bootstrap.{
  get_bootstrap_data, generate_cloud_init_secret,
}

-- capierrors.UnsupportedChangeMachineError
abbrev pub unsupported_change_machine_error : String
unsupported_change_machine_error = "UnsupportedChange"

-- metav1.FinalizerDeleteDependents
abbrev pub finalizer_delete_dependents : String
finalizer_delete_dependents = "foregroundDeletion"

-- `SetFailureReason(UnsupportedChangeMachineError)` and `SetFailureMessage(errors.New(text))`.
unfoldable pub fail_machine : String → KubernetesMachine → KubernetesMachine
fail_machine text k = record k {
  status =
      set_machine_failure_message
        (set_machine_failure_reason k.status unsupported_change_machine_error) (message text);
}

unfoldable pub set_ready : Bool → KubernetesMachine → KubernetesMachine
set_ready ready' k = record k { status = record (k.status) { ready = ready' } }

-- `Status.FailureReason != nil || Status.FailureMessage != nil`
unfoldable pub has_failed : KubernetesMachine → Bool
has_failed k = is_some k.status.failure_reason || is_some k.status.failure_message

-- `ref := GetControllerOf(o); ref == nil || ref.UID != k.UID` does not hold.
unfoldable pub is_controlled_by : Platform → ObjectMeta → ObjectMeta → Bool
is_controlled_by p controlled owner = elim (p.get_controller_of controlled) [
  | none ↦ false
  | some ref ↦ ref.uid == owner.uid
]

-- The two finalizers.
unfoldable pub add_finalizers : Platform → KubernetesMachine → KubernetesMachine
add_finalizers p k = record k {
  meta = record (k.meta) {
    finalizers =
        p.add_finalizer (p.add_finalizer k.meta.finalizers kubernetes_machine_finalizer)
          finalizer_delete_dependents;
  };
}

module _ (p : Platform) where
  -- `enableBoostrapProcess`
  unfoldable pub enable_bootstrap_process : Log → Pod → Option Error × Log
  enable_bootstrap_process log pod = kind_container_exec p log pod "/opt/cloud-init/install.sh" []

  -- The command that sets the provider ID of `pod` on its node, run in a controller pod.
  unfoldable pub patch_node : Log → Pod → Pod → Option Error × Log
  patch_node log pod controller_pod = kind_container_exec p log controller_pod "kubectl" (
      "--kubeconfig"
      ∷ "/etc/kubernetes/admin.conf"
      ∷ "patch"
      ∷ "node"
      ∷ machine_pod_node_name pod
      ∷ "--patch"
      ∷ ("{\"spec\": {\"providerID\": \"" <> get_provider_id_from_pod pod <> "\"}}")
      ∷ [])

  unfoldable pub patch_first : Log → Pod → Result (List Pod) → Option Error × Log
  unfolding patch_node
  patch_first log pod (err e) = (some (wrapped "failed to list controller Pods for Cluster" e), log)
  patch_first log pod (ok []) = (some (message "Unable to find controller Pod for Cluster"), log)
  patch_first log pod (ok (controller_pod ∷ _)) = patch_node log pod controller_pod

  -- `setNodeProviderID`
  unfoldable pub set_node_provider_id : Log → Cluster → Pod → Option Error × Log
  unfolding patch_first
  set_node_provider_id log cluster pod =
      let labels : Labels =
        (cluster_label_name, cluster.meta.name) ∷ (machine_control_plane_label_name, "") ∷ [] in
      patch_first (list_pods cluster.meta.namespace labels ∷ log) pod
        (p.pods log cluster.meta.namespace labels)

  -- From the check of the machine's pod on: readiness.
  unfoldable pub mark_ready : KubernetesMachine → Log → Pod → Run KubernetesMachine
  mark_ready k log pod = if is_pod_ready pod then stop (set_ready true k) log else stop k log

  unfoldable pub after_node : KubernetesMachine → Pod → Option Error × Log → Run KubernetesMachine
  after_node k pod (none, log) = mark_ready k log pod
  after_node k pod (some e, log) =
      requeue k log (second * 5)
        (some (wrapped "failed to patch the Kubernetes node with the machine providerID" e))

  unfoldable pub after_bootstrap :
      Cluster
      → KubernetesMachine
      → Pod
      → ContainerStatus
      → Option Error × Log
      → Run KubernetesMachine
  unfolding after_node
  after_bootstrap cluster k pod cs (none, log) =
      if not cs.ready then stop k log else after_node k pod (set_node_provider_id log cluster pod)
  after_bootstrap cluster k pod cs (some e, log) =
      requeue k log (second * 5) (some (wrapped "failed to enable bootstrap process" e))

  -- The kind container has terminated for `reason`.
  unfoldable pub container_terminated :
      KubernetesMachine → Log → Pod → String → Run KubernetesMachine
  container_terminated k log pod reason =
      if k.spec.allow_recreation
      then stop_with k (delete_pod pod ∷ log) (p.pod_deleted log pod)
      else stop (fail_machine ("kind container has terminated: " <> reason) k) log

  -- The kind container has that status.
  unfoldable pub with_status :
      Cluster → KubernetesMachine → Log → Pod → ContainerStatus → Run KubernetesMachine
  unfolding after_bootstrap
  with_status cluster k log pod cs = elim cs.state.terminated [
    | some reason ↦ container_terminated k log pod reason
    | none ↦
        if not cs.state.running
        then stop k log
        else after_bootstrap cluster k pod cs (enable_bootstrap_process log pod)
  ]

  -- From the check of the kind container's status on.
  unfoldable pub check_container : Cluster → KubernetesMachine → Log → Pod → Run KubernetesMachine
  check_container cluster k log pod =
      elim (get_container_status pod.status.container_statuses kind_container_name) [
        | none ↦ stop k log
        | some cs ↦ with_status cluster k log pod cs
      ]

  -- The Secret has been created, or there is one of its name. The controller that is checked is
  -- that of the object that was sent.
  unfoldable pub check_secret :
      Cluster → KubernetesMachine → Log → Pod → Secret → Run KubernetesMachine
  check_secret cluster k log pod s =
      if is_controlled_by p s.meta k.meta
      then check_container cluster k log pod
      else stop (fail_machine "bootstrap Secret is not controlled by KubernetesMachine" k) log

  unfoldable pub secret_answer :
      Cluster → KubernetesMachine → Log → Pod → Secret × Option Error → Run KubernetesMachine
  unfolding check_secret
  secret_answer cluster k log pod (s, none) = check_secret cluster k log pod s
  secret_answer cluster k log pod (s, some e) =
      if is_already_exists e then check_secret cluster k log pod s else stop_with k log (some e)

  unfoldable pub with_secret :
      Cluster → KubernetesMachine → Log → Pod → Outcome Secret → Run KubernetesMachine
  unfolding secret_answer
  with_secret cluster k log pod (fail e) = stop_with k log (some e)
  with_secret cluster k log pod panic = panic_run k log
  with_secret cluster k log pod (done s) =
      secret_answer cluster k (create_secret s ∷ log) pod (p.secret_created log s)

  unfoldable pub with_bootstrap_data :
      Cluster → Machine → KubernetesMachine → Pod → Result Bytes × Log → Run KubernetesMachine
  unfolding with_secret
  with_bootstrap_data cluster machine k pod (err e, log) = stop k log
  with_bootstrap_data cluster machine k pod (ok text, log) =
      with_secret cluster k log pod (generate_cloud_init_secret p cluster machine k text)

  unfoldable pub with_claims :
      Cluster → Machine → KubernetesMachine → Pod → Option Error × Log → Run KubernetesMachine
  unfolding with_bootstrap_data
  with_claims cluster machine k pod (some e, log) =
      stop_with k log (some (wrapped "failed to create persistent volume claims" e))
  with_claims cluster machine k pod (none, log) =
      with_bootstrap_data cluster machine k pod (get_bootstrap_data p machine log)

  -- The pod is the machine's, the provider ID is set and the pod is not being deleted.
  unfoldable pub provision :
      Cluster → Machine → KubernetesMachine → Log → Pod → Run KubernetesMachine
  unfolding with_claims
  provision cluster machine k log pod =
      with_claims cluster machine k pod (create_persistent_volume_claims p k log)

  unfoldable pub pod_deleting : KubernetesMachine → Log → Run KubernetesMachine
  pod_deleting k log =
      if k.spec.allow_recreation
      then stop (set_ready false k) log
      else stop (fail_machine "Machine Pod has been deleted" k) log

  unfoldable pub set_provider_id : KubernetesMachine → Pod → KubernetesMachine
  set_provider_id k pod = record k {
    spec = record (k.spec) { provider_id = some (get_provider_id_from_pod pod) };
  }

  -- The pod is the machine's, and the provider ID is set.
  unfoldable pub provided_pod :
      Cluster → Machine → KubernetesMachine → Log → Pod → Run KubernetesMachine
  unfolding pod_deleting
  provided_pod cluster machine k log pod =
      if is_some pod.meta.deletion_timestamp
      then pod_deleting k log
      else provision cluster machine k log pod

  -- The pod is the machine's.
  unfoldable pub own_pod : Cluster → Machine → KubernetesMachine → Log → Pod → Run KubernetesMachine
  unfolding set_provider_id provided_pod
  own_pod cluster machine k log pod =
      if not (is_some k.spec.provider_id)
      then stop (set_provider_id k pod) log
      else provided_pod cluster machine k log pod

  -- The pod exists.
  unfoldable pub with_pod :
      Cluster → Machine → KubernetesMachine → Log → Pod → Run KubernetesMachine
  unfolding own_pod
  with_pod cluster machine k log pod =
      if not (is_controlled_by p pod.meta k.meta)
      then stop (fail_machine "Machine Pod is not controlled by KubernetesMachine" k) log
      else own_pod cluster machine k log pod

  -- The pod does not exist, and may not be created again.
  unfoldable pub missing_fixed : Cluster → Machine → KubernetesMachine → Log → Run KubernetesMachine
  missing_fixed cluster machine k log =
      if is_some k.spec.provider_id
      then stop (fail_machine "Machine Pod cannot be found" k) log
      else create_machine_pod p cluster machine k log

  -- The pod does not exist.
  unfoldable pub pod_missing : Cluster → Machine → KubernetesMachine → Log → Run KubernetesMachine
  unfolding missing_fixed
  pod_missing cluster machine k log =
      if k.spec.allow_recreation
      then create_machine_pod p cluster machine (set_ready false k) log
      else missing_fixed cluster machine k log

  unfoldable pub with_answer :
      Cluster → Machine → KubernetesMachine → Log → Result Pod → Run KubernetesMachine
  with_answer cluster machine k log (ok pod) = with_pod cluster machine k log pod
  with_answer cluster machine k log (err e) =
      if is_not_found e then pod_missing cluster machine k log else stop_with k log (some e)

  unfoldable pub pod_key : Machine → KubernetesMachine → NamespacedName
  pod_key machine k = record { namespace = machine.meta.namespace; name = machine_pod_name k }

  -- From the lookup of the pod on.
  unfoldable pub get_or_create_pod :
      Cluster → Machine → KubernetesMachine → Log → Run KubernetesMachine
  unfolding pod_key with_answer
  get_or_create_pod cluster machine k log =
      with_answer cluster machine k (get_pod (pod_key machine k) ∷ log)
        (p.pod log (pod_key machine k))

  -- `reconcileNormal`
  unfoldable pub reconcile_normal :
      Cluster → Machine → KubernetesMachine → Log → Run KubernetesMachine
  reconcile_normal cluster machine k log =
      if has_failed k
      then stop k log
      else if not (is_some machine.data_secret_name)
      then stop (add_finalizers p k) log
      else get_or_create_pod cluster machine (add_finalizers p k) log
