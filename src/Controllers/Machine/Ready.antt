-- ===== src/Controllers/Machine/Ready.antt =====
-- When `reconcileNormal` marks a KubernetesMachine ready.
use cluster_api_provider_kub.Prelude.{
  true, false, Option, none, some, ◌≡◌, refl, arith, Option-cases, is_some, inl, inr, ◌∷◌,
  Bool-cases,
}
use cluster_api_provider_kub.Kube.{Cluster, Pod, ContainerStatus, NamespacedName, Machine, Secret}
use cluster_api_provider_kub.Api.V1alpha3.{
  KubernetesMachine, set_machine_failure_reason, set_machine_failure_message,
}
use cluster_api_provider_kub.Platform.{Platform, Log, create_secret, get_pod}
use cluster_api_provider_kub.Utils.PodStatus.{get_container_status, is_pod_ready}
use cluster_api_provider_kub.Utils.Exec.{kind_container_name}
use cluster_api_provider_kub.Controllers.Machine.Normal.{
  mark_ready, with_status, with_secret, with_bootstrap_data, with_claims, check_container,
  fail_machine, enable_bootstrap_process, set_node_provider_id, container_terminated,
  is_controlled_by, reconcile_normal, with_pod, provision, has_failed, add_finalizers, set_ready,
  pod_key, pod_missing, with_answer,
}
use cluster_api_provider_kub.Go.{fail, panic, ok, err, Outcome, Result, ok, Error, done}
use cluster_api_provider_kub.Go.Text.{Bytes}
use cluster_api_provider_kub.Controllers.Machine.Claims.{create_persistent_volume_claims}
use cluster_api_provider_kub.Controllers.Machine.Cases.{
  reconcile_normal_failed, object-create_machine_pod, status-add_finalizers, reconcile_normal_data,
  reconcile_normal_no_data,
}

-- The kind container of a pod is up, and the pod is ready; the install script and the patch of the node
-- have been run in this reconciliation with no error.
pub record IsUp (p : Platform) (cluster : Cluster) (pod : Pod) : Type 0 where
  pub container : ContainerStatus
  pub found :
      get_container_status pod.status.container_statuses kind_container_name ≡ some container
  pub alive : container.state.terminated ≡ none
  pub running : container.state.running ≡ true
  pub container_ready : container.ready ≡ true
  pub log_before : Log
  pub installed : (enable_bootstrap_process p log_before pod).0 ≡ none
  pub patched :
      (set_node_provider_id p (enable_bootstrap_process p log_before pod).1 cluster pod).0 ≡ none
  pub pod_ready : is_pod_ready pod ≡ true

-- The machine of a run became ready in it.
abbrev pub TurnsReady : KubernetesMachine → KubernetesMachine → Type 0
TurnsReady k k' = (k.status.ready ≡ false) × (k'.status.ready ≡ true)

module _ (p : Platform) (cluster : Cluster) (k : KubernetesMachine) (pod : Pod) where
  mark_ready-pod_ready :
      (log : Log) → TurnsReady k (mark_ready p k log pod).object → is_pod_ready pod ≡ true
  unfolding mark_ready
  mark_ready-pod_ready log h = ground arith

  with_status-IsUp :
      (log : Log) (cs : ContainerStatus)
      → get_container_status pod.status.container_statuses kind_container_name ≡ some cs
      → TurnsReady k (with_status p cluster k log pod cs).object
      → IsUp p cluster pod
  unfolding with_status mark_ready container_terminated fail_machine set_machine_failure_message
      set_machine_failure_reason
  with_status-IsUp log cs e h = record {
    container = cs;
    found = e;
    alive = ground arith;
    running = ground arith;
    container_ready = ground arith;
    log_before = log;
    installed = ground arith;
    patched = ground arith;
    pod_ready = ground arith;
  }

  check_container-IsUp :
      (log : Log) → TurnsReady k (check_container p cluster k log pod).object → IsUp p cluster pod
  unfolding check_container
  check_container-IsUp log h =
      elim (Option-cases (get_container_status pod.status.container_statuses kind_container_name)) [
        | inl e ↦ absurd (ground arith)
        | inr (cs, e) ↦ with_status-IsUp log cs e (rw (e, check_container) at h)
      ]

  with_secret-IsUp :
      (log : Log) (o : Outcome Secret)
      → TurnsReady k (with_secret p cluster k log pod o).object
      → IsUp p cluster pod
  unfolding with_secret fail_machine set_machine_failure_message set_machine_failure_reason
  with_secret-IsUp log (fail e) h = absurd (ground arith)
  with_secret-IsUp log panic h = absurd (ground arith)
  with_secret-IsUp log (done s) h = check_container-IsUp (create_secret s ∷ log) (ground arith)

  with_bootstrap_data-IsUp :
      (machine : Machine) (r : Result Bytes × Log)
      → TurnsReady k (with_bootstrap_data p cluster machine k pod r).object
      → IsUp p cluster pod
  unfolding with_bootstrap_data
  with_bootstrap_data-IsUp machine (err e, log) h = absurd (ground arith)
  with_bootstrap_data-IsUp machine (ok text, log) h = with_secret-IsUp log _ h

  with_claims-IsUp :
      (machine : Machine) (r : Option Error × Log)
      → TurnsReady k (with_claims p cluster machine k pod r).object
      → IsUp p cluster pod
  unfolding with_claims
  with_claims-IsUp machine (some e, log) h = absurd (ground arith)
  with_claims-IsUp machine (none, log) h = with_bootstrap_data-IsUp machine _ h

-- What a machine and its pod satisfy where the machine becomes ready.
pub record ReadyConditions (p : Platform) (cluster : Cluster) (k : KubernetesMachine) (log : Log)
    (key : NamespacedName) : Type 0 where
  pub pod : Pod
  pub found : p.pod log key ≡ ok pod
  pub owned : is_controlled_by p pod.meta k.meta ≡ true
  pub provided : is_some k.spec.provider_id ≡ true
  pub kept : pod.meta.deletion_timestamp ≡ none
  pub up : IsUp p cluster pod

module _ (p : Platform) (cluster : Cluster) (machine : Machine) (k : KubernetesMachine) where
  -- The machine after its finalizers have been added; its status and specification are those of `k`.
  with_pod-IsUp :
      (k' : KubernetesMachine) (log : Log) (pod : Pod)
      → TurnsReady k' (with_pod p cluster machine k' log pod).object
      → (is_controlled_by p pod.meta k'.meta ≡ true)
        × (is_some k'.spec.provider_id ≡ true)
        × (pod.meta.deletion_timestamp ≡ none)
        × IsUp p cluster pod
  unfolding with_pod provision fail_machine set_machine_failure_message set_machine_failure_reason
      set_ready
  with_pod-IsUp k' log pod h = (
    ground arith,
    ground arith,
    ground arith,
    with_claims-IsUp p cluster k' pod machine (create_persistent_volume_claims p k' log)
        (ground arith),
  )

  pod_missing-not_ready :
      (k' : KubernetesMachine) (log : Log)
      → TurnsReady k' (pod_missing p cluster machine k' log).object
      → ⊥
  unfolding pod_missing fail_machine set_machine_failure_message set_machine_failure_reason
      set_ready
  pod_missing-not_ready k' log h = ground (
    arith,
    object-create_machine_pod p cluster machine k' log,
    object-create_machine_pod p cluster machine (set_ready false k') log,
  )

  with_answer-ReadyConditions :
      (k' : KubernetesMachine) (log' log : Log) (key : NamespacedName) (r : Result Pod)
      → p.pod log key ≡ r
      → TurnsReady k' (with_answer p cluster machine k' log' r).object
      → ReadyConditions p cluster k' log key
  unfolding with_answer
  with_answer-ReadyConditions k' log' log key (err e) q h =
      absurd (ground (arith, pod_missing-not_ready k' log'))
  with_answer-ReadyConditions k' log' log key (ok pod) q h =
      let (owned', provided', kept', up') = with_pod-IsUp k' log' pod h in
      record { pod = pod; found = q; owned = owned'; provided = provided'; kept = kept'; up = up' }

  -- A KubernetesMachine that was not ready and is after `reconcileNormal` has not failed before, its
  -- provider ID was set, its pod exists, is controlled by it and is not being deleted, the pod's
  -- kind container runs and is ready, the install script and the patch of the node succeeded, and
  -- the pod is ready.
  pub reconcile_normal-ready :
      (log : Log)
      → TurnsReady k (reconcile_normal p cluster machine k log).object
      → (has_failed k ≡ false)
        × ReadyConditions p cluster (add_finalizers p k) log (pod_key p machine k)
  reconcile_normal-ready log h = elim (Bool-cases (has_failed k)) [
    | inl f ↦ absurd (ground (arith, reconcile_normal_failed p cluster machine k log f))
    | inr f ↦ elim (Bool-cases (is_some machine.data_secret_name)) [
      | inl d ↦ (
        f,
        with_answer-ReadyConditions (add_finalizers p k) (get_pod (pod_key p machine k) ∷ log) log
            (pod_key p machine k) (p.pod log (pod_key p machine k)) refl
            (
              ground (arith, status-add_finalizers p cluster machine k),
              rw (reconcile_normal_data p cluster machine k log f d) at h.1,
            ),
      )
      | inr d ↦ absurd (
          ground (
            arith,
            reconcile_normal_no_data p cluster machine k log f d,
            status-add_finalizers p cluster machine k,
          ))
    ]
  ]
