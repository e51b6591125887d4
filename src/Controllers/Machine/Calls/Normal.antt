-- ===== src/Controllers/Machine/Calls/Normal.antt =====
-- The calls of `reconcileNormal`.
use cluster_api_provider_kub.Prelude.{
  none, ◌∷◌, ◌≡◌, ◌⊎◌, refl, true, false, not, inl, inr, arith, Bool-cases, is_some,
}
use cluster_api_provider_kub.Go.{Result, ok, err, Error}
use cluster_api_provider_kub.Kube.{Cluster, Machine, Pod}
use cluster_api_provider_kub.Api.V1alpha3.{KubernetesMachine}
use cluster_api_provider_kub.Platform.{Platform, Log, get_pod, create_pod}
use cluster_api_provider_kub.Controllers.Common.{is_not_found}
use cluster_api_provider_kub.Controllers.Machine.Calls.Container.{Leaves, leaves, left, Leaves-if}
use cluster_api_provider_kub.Controllers.Machine.Claims.{create_persistent_volume_claims}
use cluster_api_provider_kub.Controllers.Machine.MachinePod.{
  machine_pod, create_machine_pod, create_built,
}
use cluster_api_provider_kub.Controllers.Machine.Normal.{
  reconcile_normal, add_finalizers, has_failed, pod_key, is_controlled_by, with_answer, pod_missing,
  missing_fixed, with_pod, own_pod, provided_pod, pod_deleting, provision, set_ready,
}
use cluster_api_provider_kub.Controllers.Machine.Cases.{
  reconcile_normal_failed, reconcile_normal_data, reconcile_normal_no_data,
}
use cluster_api_provider_kub.Controllers.Machine.Names.{machine_pod_name}
use cluster_api_provider_kub.Controllers.Machine.Calls.Provision.{ProvisionCalls, provision-Leaves}

module _ (p : Platform) (cluster : Cluster) (machine : Machine) (k : KubernetesMachine) where
  -- Nothing; the lookup of the machine's pod; its creation, where there is none and the machine never
  -- had one or may have another; or the calls for a pod that is there, is controlled by the machine and
  -- is not being deleted, of a machine that has its provider ID.
  pub data NormalCalls (log log' : Log) : Type 0 where
    no_calls : log' ≡ log → NormalCalls log log'
    looks : log' ≡ get_pod (pod_key p machine k) ∷ log → NormalCalls log log'
    creates :
        (e : Error) (k' : KubernetesMachine) (pod : Pod)
        → p.pod log (pod_key p machine k) ≡ err e
        → is_not_found e ≡ true
        → (k.spec.allow_recreation ≡ true) ⊎ (k.spec.provider_id ≡ none)
        → (k' ≡ k) ⊎ (k' ≡ set_ready false k)
        → machine_pod p cluster machine k' ≡ ok pod
        → log' ≡ create_pod pod ∷ get_pod (pod_key p machine k) ∷ log
        → NormalCalls log log'
    provisions :
        (pod : Pod)
        → p.pod log (pod_key p machine k) ≡ ok pod
        → is_controlled_by p pod.meta k.meta ≡ true
        → is_some k.spec.provider_id ≡ true
        → pod.meta.deletion_timestamp ≡ none
        → ProvisionCalls p cluster machine k pod (get_pod (pod_key p machine k) ∷ log) log'
        → NormalCalls log log'

  module _ (log : Log) where
    abbrev looked : Log
    looked = get_pod (pod_key p machine k) ∷ log

    with_pod-Leaves :
        (pod : Pod)
        → p.pod log (pod_key p machine k) ≡ ok pod
        → Leaves (NormalCalls log) (with_pod p cluster machine k looked pod)
    unfolding with_pod own_pod provided_pod pod_deleting provision
    with_pod-Leaves pod q =
        Leaves-if (not (is_controlled_by p pod.meta k.meta)) _ _ (λ _. leaves (looks refl))
          λ owned.
            Leaves-if (not (is_some k.spec.provider_id)) _ _ (λ _. leaves (looks refl))
              λ provided.
                Leaves-if (is_some pod.meta.deletion_timestamp) _ _
                  (λ _.
                    Leaves-if k.spec.allow_recreation _ _ (λ _. leaves (looks refl))
                      (λ _. leaves (looks refl)))
                  λ kept. leaves (
                    provisions pod q (ground arith) (ground arith) (ground arith) (
                      left _ (
                        provision-Leaves p cluster machine k pod looked
                          (create_persistent_volume_claims p k looked) refl)))

    create_built-Leaves :
        (e : Error) (k' : KubernetesMachine)
        → p.pod log (pod_key p machine k) ≡ err e
        → is_not_found e ≡ true
        → (k.spec.allow_recreation ≡ true) ⊎ (k.spec.provider_id ≡ none)
        → (k' ≡ k) ⊎ (k' ≡ set_ready false k)
        → (r : Result Pod) → machine_pod p cluster machine k' ≡ r
        → Leaves (NormalCalls log) (create_built p k' looked r)
    unfolding create_built
    create_built-Leaves e k' q n a s (err x) m = leaves (looks refl)
    create_built-Leaves e k' q n a s (ok pod) m = leaves (creates e k' pod q n a s m refl)

    pod_missing-Leaves :
        (e : Error)
        → p.pod log (pod_key p machine k) ≡ err e
        → is_not_found e ≡ true
        → Leaves (NormalCalls log) (pod_missing p cluster machine k looked)
    unfolding pod_missing missing_fixed create_machine_pod
    pod_missing-Leaves e q n =
        Leaves-if k.spec.allow_recreation _ _
          (λ a. create_built-Leaves e (set_ready false k) q n (inl a) (inr refl) _ refl)
          λ _.
            Leaves-if (is_some k.spec.provider_id) _ _ (λ _. leaves (looks refl))
              λ f. create_built-Leaves e k q n (inr (ground arith)) (inl refl) _ refl

    with_answer-Leaves :
        (r : Result Pod)
        → p.pod log (pod_key p machine k) ≡ r
        → Leaves (NormalCalls log) (with_answer p cluster machine k looked r)
    unfolding with_answer
    with_answer-Leaves (ok pod) q = with_pod-Leaves pod q
    with_answer-Leaves (err e) q =
        Leaves-if (is_not_found e) _ _ (λ n. pod_missing-Leaves e q n) (λ _. leaves (looks refl))

pub reconcile_normal-NormalCalls :
    (p : Platform) (cluster : Cluster) (machine : Machine) (k : KubernetesMachine) (log : Log)
    → ((has_failed k ≡ true) × ((reconcile_normal p cluster machine k log).log ≡ log))
      ⊎ ((has_failed k ≡ false)
          × NormalCalls p cluster machine
              (add_finalizers p k)
              log
              (reconcile_normal p cluster machine k log).log)
unfolding add_finalizers pod_key machine_pod_name
reconcile_normal-NormalCalls p cluster machine k log = elim (Bool-cases (has_failed k)) [
  | inl f ↦ inl (f, rw (reconcile_normal_failed p cluster machine k log f))
  | inr f ↦ elim (Bool-cases (is_some machine.data_secret_name)) [
    | inl d ↦ inr (
      f,
      rw (reconcile_normal_data p cluster machine k log f d)
          (left _ (with_answer-Leaves p cluster machine (add_finalizers p k) log _ refl)),
    )
    | inr d ↦ inr (f, rw (reconcile_normal_no_data p cluster machine k log f d) (no_calls refl))
  ]
]
