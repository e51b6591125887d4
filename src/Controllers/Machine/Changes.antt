-- ===== src/Controllers/Machine/Changes.antt =====
-- The changes that `reconcileNormal` can make to a KubernetesMachine beside its finalizers.
use cluster_api_provider_kub.Prelude.{
  ◌∷◌, none, some, true, false, ◌≡◌, refl, arith, inl, inr, Bool, String, if◌then◌else◌, is_some,
  Option, ◌⊎◌, Option-cases, Bool-cases, not, ◌<>◌,
}
use cluster_api_provider_kub.Go.{ok, err, done, fail, panic, Result, Outcome, Error}
use cluster_api_provider_kub.Api.V1alpha3.{KubernetesMachine}
use cluster_api_provider_kub.Platform.{Platform, Log, create_secret, delete_pod}
use cluster_api_provider_kub.Controllers.Machine.Normal.{
  with_pod, pod_missing, with_answer, fail_machine, has_failed, with_secret, check_container,
  mark_ready, provision, set_ready, after_node, check_secret, after_bootstrap, set_provider_id,
  with_status, reconcile_normal, with_bootstrap_data, container_terminated, with_claims,
  secret_answer, add_finalizers, is_controlled_by, missing_fixed, enable_bootstrap_process,
  set_node_provider_id, own_pod, provided_pod, pod_deleting,
}
use cluster_api_provider_kub.Kube.{Cluster, Machine, Pod, Secret, ContainerStatus}
use cluster_api_provider_kub.Controllers.Common.{
  Run, is_already_exists, is_not_found, stop_with, stop,
}
use cluster_api_provider_kub.Controllers.Machine.Cases.{
  object-create_machine_pod, reconcile_normal_failed, reconcile_normal_data,
  reconcile_normal_no_data,
}
use cluster_api_provider_kub.Go.Text.{Bytes}
use cluster_api_provider_kub.Utils.PodStatus.{get_container_status, is_pod_ready}
use cluster_api_provider_kub.Controllers.Machine.Bootstrap.{get_bootstrap_data}
use cluster_api_provider_kub.Controllers.Machine.Claims.{create_persistent_volume_claims}
use cluster_api_provider_kub.Utils.Exec.{kind_container_name}
use cluster_api_provider_kub.Controllers.Machine.MachinePod.{create_machine_pod}

pub data Change (p : Platform) (k k' : KubernetesMachine) : Type 0 where
  unchanged : k' ≡ k → Change p k k'
  failing : (text : String) → k' ≡ fail_machine text k → Change p k k'
  readying : is_some k.spec.provider_id ≡ true → k' ≡ set_ready true k → Change p k k'
  unreadying : k.spec.allow_recreation ≡ true → k' ≡ set_ready false k → Change p k k'
  providing : (pod : Pod) → k.spec.provider_id ≡ none → k' ≡ set_provider_id p k pod → Change p k k'

-- The run leaves `k` with such a change.
data Makes (p : Platform) (k : KubernetesMachine) (r : Run KubernetesMachine) : Type 0 where
  change : Change p k r.object → Makes p k r

made :
    (p : Platform) (k : KubernetesMachine) (r : Run KubernetesMachine)
    → Makes p k r
    → Change p k r.object
made p k r (change c) = c

module _ (p : Platform) (k : KubernetesMachine) where
  Makes-if :
      (b : Bool) (x y : Run KubernetesMachine)
      → (b ≡ true → Makes p k x)
      → (b ≡ false → Makes p k y)
      → Makes p k (if b then x else y)
  Makes-if true x y hx hy = hx refl
  Makes-if false x y hx hy = hy refl

  module _ (cluster : Cluster) (pod : Pod) (provided : is_some k.spec.provider_id ≡ true) where
    mark_ready-Makes : (log : Log) → Makes p k (mark_ready p k log pod)
    unfolding mark_ready
    mark_ready-Makes log =
        Makes-if (is_pod_ready pod) (stop (set_ready true k) log) (stop k log)
          (λ _. change (readying provided refl)) (λ _. change (unchanged refl))

    after_node-Makes : (r : Option Error × Log) → Makes p k (after_node p k pod r)
    unfolding after_node
    after_node-Makes (none, log) = mark_ready-Makes log
    after_node-Makes (some e, log) = change (unchanged refl)

    after_bootstrap-Makes :
        (cs : ContainerStatus) (r : Option Error × Log)
        → Makes p k (after_bootstrap p cluster k pod cs r)
    unfolding after_bootstrap
    after_bootstrap-Makes cs (none, log) =
        Makes-if (not cs.ready) (stop k log)
          (after_node p k pod (set_node_provider_id p log cluster pod))
          (λ _. change (unchanged refl)) (λ _. after_node-Makes _)
    after_bootstrap-Makes cs (some e, log) = change (unchanged refl)

    check_container-Makes : (log : Log) → Makes p k (check_container p cluster k log pod)
    unfolding check_container with_status container_terminated
    check_container-Makes log =
        elim (Option-cases
          (get_container_status pod.status.container_statuses kind_container_name)) [
            | inl e ↦ rw (e, check_container) (change (unchanged refl))
            | inr (cs, e) ↦
                rw (e, check_container)
                  (elim (Option-cases cs.state.terminated) [
                    | inl t ↦
                        rw (t, with_status)
                          (Makes-if (not cs.state.running) (stop k log)
                            (after_bootstrap p cluster k pod cs
                              (enable_bootstrap_process p log pod))
                            (λ _. change (unchanged refl)) (λ _. after_bootstrap-Makes cs _))
                    | inr (reason, t) ↦
                        rw (t, with_status)
                          (Makes-if k.spec.allow_recreation
                            (stop_with k (delete_pod pod ∷ log) (p.pod_deleted log pod))
                            (stop (fail_machine ("kind container has terminated: " <> reason) k)
                              log)
                            (λ _. change (unchanged refl)) (λ _. change (failing _ refl)))
                  ])
          ]

    check_secret-Makes : (log : Log) (s : Secret) → Makes p k (check_secret p cluster k log pod s)
    unfolding check_secret
    check_secret-Makes log s =
        Makes-if (is_controlled_by p s.meta k.meta) (check_container p cluster k log pod)
          (stop (fail_machine "bootstrap Secret is not controlled by KubernetesMachine" k) log)
          (λ _. check_container-Makes log) (λ _. change (failing _ refl))

    with_secret-Makes :
        (log : Log) (o : Outcome Secret) → Makes p k (with_secret p cluster k log pod o)
    unfolding with_secret
    with_secret-Makes log (fail e) = change (unchanged refl)
    with_secret-Makes log panic = change (unchanged refl)
    with_secret-Makes log (done s) = answer (p.secret_created log s)
      where
        answer :
            (a : Secret × Option Error)
            → Makes p k (secret_answer p cluster k (create_secret s ∷ log) pod a)
        answer (s', none) = check_secret-Makes _ s'
        answer (s', some e) =
            Makes-if (is_already_exists e) (check_secret p cluster k (create_secret s ∷ log) pod s')
              (stop_with k (create_secret s ∷ log) (some e)) (λ _. check_secret-Makes _ s')
              (λ _. change (unchanged refl))

    provision-Makes :
        (machine : Machine) (log : Log) → Makes p k (provision p cluster machine k log pod)
    unfolding provision
    provision-Makes machine log = claims (create_persistent_volume_claims p k log)
      where
        data_answer :
            (r : Result Bytes × Log) → Makes p k (with_bootstrap_data p cluster machine k pod r)
        data_answer (err e, log') = change (unchanged refl)
        data_answer (ok text, log') = with_secret-Makes log' _

        claims : (r : Option Error × Log) → Makes p k (with_claims p cluster machine k pod r)
        claims (some e, log') = change (unchanged refl)
        claims (none, log') = data_answer (get_bootstrap_data p machine log')

  with_pod-Makes :
      (cluster : Cluster) (machine : Machine) (log : Log) (pod : Pod)
      → Makes p k (with_pod p cluster machine k log pod)
  unfolding with_pod
  with_pod-Makes cluster machine log pod =
      Makes-if (not (is_controlled_by p pod.meta k.meta))
        (stop (fail_machine "Machine Pod is not controlled by KubernetesMachine" k) log)
        (own_pod p cluster machine k log pod) (λ _. change (failing _ refl))
        λ _.
          Makes-if (not (is_some k.spec.provider_id)) (stop (set_provider_id p k pod) log)
            (provided_pod p cluster machine k log pod)
            (λ n. change (providing pod (ground arith) refl))
            λ n.
              Makes-if (is_some pod.meta.deletion_timestamp) (pod_deleting p k log)
                (provision p cluster machine k log pod)
                (λ _.
                  Makes-if k.spec.allow_recreation (stop (set_ready false k) log)
                    (stop (fail_machine "Machine Pod has been deleted" k) log)
                    (λ a. change (unreadying a refl)) (λ _. change (failing _ refl)))
                λ _. provision-Makes cluster pod (ground arith) machine log

  pod_missing-Makes :
      (cluster : Cluster) (machine : Machine) (log : Log)
      → Makes p k (pod_missing p cluster machine k log)
  unfolding pod_missing
  pod_missing-Makes cluster machine log =
      Makes-if k.spec.allow_recreation
        (create_machine_pod p cluster machine (set_ready false k) log)
        (missing_fixed p cluster machine k log)
        (λ a. change (unreadying a (object-create_machine_pod p cluster machine _ log)))
        λ _.
          Makes-if (is_some k.spec.provider_id)
            (stop (fail_machine "Machine Pod cannot be found" k) log)
            (create_machine_pod p cluster machine k log) (λ _. change (failing _ refl))
            λ _. change (unchanged (object-create_machine_pod p cluster machine _ log))

  with_answer-Makes :
      (cluster : Cluster) (machine : Machine) (log : Log) (r : Result Pod)
      → Makes p k (with_answer p cluster machine k log r)
  unfolding with_answer
  with_answer-Makes cluster machine log (ok pod) = with_pod-Makes cluster machine log pod
  with_answer-Makes cluster machine log (err e) =
      Makes-if (is_not_found e) (pod_missing p cluster machine k log) (stop_with k log (some e))
        (λ _. pod_missing-Makes cluster machine log) (λ _. change (unchanged refl))

-- `reconcileNormal` leaves a machine that has failed as it is. To another it adds the finalizers,
-- and then it changes nothing, or records a failure, or sets ready where a provider ID is set, or
-- clears ready where recreation is allowed, or sets the provider ID from a pod where none is set.
pub reconcile_normal-Change :
    (p : Platform) (cluster : Cluster) (machine : Machine) (k : KubernetesMachine) (log : Log)
    → ((has_failed k ≡ true) × ((reconcile_normal p cluster machine k log).object ≡ k))
      ⊎ ((has_failed k ≡ false)
          × Change p (add_finalizers p k) (reconcile_normal p cluster machine k log).object)
reconcile_normal-Change p cluster machine k log = elim (Bool-cases (has_failed k)) [
  | inl f ↦ inl (f, rw (reconcile_normal_failed p cluster machine k log f))
  | inr f ↦ elim (Bool-cases (is_some machine.data_secret_name)) [
    | inl d ↦ inr (
      f,
      rw (reconcile_normal_data p cluster machine k log f d) (
          made p (add_finalizers p k) _
            (with_answer-Makes p (add_finalizers p k) cluster machine _ _)),
    )
    | inr d ↦ inr (f, rw (reconcile_normal_no_data p cluster machine k log f d) (unchanged refl))
  ]
]
