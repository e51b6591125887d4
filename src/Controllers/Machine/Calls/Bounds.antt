-- ===== src/Controllers/Machine/Calls/Bounds.antt =====
-- How many calls a reconciliation of a machine makes at most.
use cluster_api_provider_kub.Prelude.{
  ℕ, ◌+◌, ◌*◌, ◌≤◌, none, some, ◌∷◌, ◌≡◌, refl, inl, inr, arith, length, Option, ap, Option-cases,
}
use cluster_api_provider_kub.Go.{Result, ok, err, Error}
use cluster_api_provider_kub.Kube.{Cluster, Machine, Pod, NamespacedName}
use cluster_api_provider_kub.Api.V1alpha3.{KubernetesMachine, KubernetesCluster}
use cluster_api_provider_kub.Platform.{
  Platform, Log, get_pod, get_owner_machine, get_kubernetes_cluster, get_kubernetes_machine,
  get_cluster_from_metadata,
}
use cluster_api_provider_kub.Platform.Lawful.{RangeLaw}
use cluster_api_provider_kub.Controllers.Machine.Normal.{reconcile_normal, add_finalizers}
use cluster_api_provider_kub.Controllers.Machine.Calls.Normal.{reconcile_normal-NormalCalls}
use cluster_api_provider_kub.Controllers.Machine.Delete.{
  reset_answer, reconcile_delete, after_reset, kubeadm_reset, delete_key,
}
use cluster_api_provider_kub.Controllers.Machine.Reconcile.{
  with_cluster, dispatch, with_infrastructure, reconcile, reconcile_body, cluster_answer,
  machine_answer, with_machine, with_object, reconcile_version, patch_deferred,
}
use cluster_api_provider_kub.Utils.Exec.{kind_container_exec}
use cluster_api_provider_kub.Controllers.Machine.Calls.Lengths.{length-NormalCalls}

-- A bound for the calls once the machine's cluster is known.
abbrev most : KubernetesMachine → ℕ
most k = 2 * length k.spec.volume_claim_templates + 6

module _ (p : Platform) (law : RangeLaw p) (machine : Machine) (k : KubernetesMachine) where
  length-reconcile_normal :
      (cluster : Cluster) (log : Log)
      → length (reconcile_normal p cluster machine k log).log ≤ length log + most k
  unfolding add_finalizers
  length-reconcile_normal cluster log =
      elim (reconcile_normal-NormalCalls p cluster machine k log) [
        | inl (f, e) ↦ omega (arith, ap length e)
        | inr (f, calls) ↦
            let bound = length-NormalCalls p law cluster machine (add_finalizers p k) calls in
            omega (arith, bound)
      ]

  log-after_reset : (r : Option Error × Log) → (after_reset p k r).log ≡ r.1
  unfolding after_reset
  log-after_reset (none, l) = refl
  log-after_reset (some e, l) = refl

  length-reset_answer :
      (l : Log) (r : Result Pod) → length (reset_answer p k l r).log ≤ length l + 1
  unfolding reset_answer kubeadm_reset kind_container_exec
  length-reset_answer l (err e) = ground arith
  length-reset_answer l (ok pod) = ground (arith, log-after_reset (kubeadm_reset p l pod))

  length-reconcile_delete :
      (cluster : Cluster) (log : Log)
      → length (reconcile_delete p machine k cluster log).log ≤ length log + 2
  unfolding reconcile_delete
  length-reconcile_delete cluster log = ground (
    arith,
    length-reset_answer (get_pod (delete_key p machine k) ∷ log)
        (p.pod log (delete_key p machine k)),
  )

  length-dispatch :
      (cluster : Cluster) (log : Log)
      → length (dispatch p machine cluster k log).log ≤ length log + most k
  unfolding dispatch
  length-dispatch cluster log =
      ground (arith, length-reconcile_normal cluster log, length-reconcile_delete cluster log)

  length-with_infrastructure :
      (cluster : Cluster) (log : Log) (r : Result KubernetesCluster)
      → length (with_infrastructure p machine cluster k log r).log ≤ length log + most k
  unfolding with_infrastructure
  length-with_infrastructure cluster log (err e) = omega arith
  length-with_infrastructure cluster log (ok c) = length-dispatch cluster log

  length-with_cluster :
      (cluster : Cluster) (log : Log)
      → length (with_cluster p machine cluster k log).log ≤ length log + (most k + 1)
  unfolding with_cluster
  length-with_cluster cluster log = elim (Option-cases cluster.infrastructure_ref) [
    | inl n ↦ rw (n, with_cluster) (omega arith)
    | inr (name, e) ↦
        let key : NamespacedName = record { namespace = k.meta.namespace; name = name } in
        rw (e, with_cluster)
          (omega (
            arith,
            length-with_infrastructure cluster (get_kubernetes_cluster key ∷ log)
                (p.kubernetes_cluster log key),
          ))
  ]

  length-cluster_answer :
      (log : Log) (r : Result (Option Cluster))
      → length (cluster_answer p machine k log r).log ≤ length log + (most k + 1)
  unfolding cluster_answer
  length-cluster_answer log (err e) = omega arith
  length-cluster_answer log (ok none) = omega arith
  length-cluster_answer log (ok (some cluster)) = length-with_cluster cluster log

module _ (p : Platform) (law : RangeLaw p) (k : KubernetesMachine) where
  length-machine_answer :
      (log : Log) (r : Result (Option Machine))
      → length (machine_answer p k log r).log ≤ length log + (most k + 2)
  unfolding machine_answer with_machine reconcile_version
  length-machine_answer log (err e) = omega arith
  length-machine_answer log (ok none) = omega arith
  length-machine_answer log (ok (some machine)) = omega (
    arith,
    length-cluster_answer p law machine (reconcile_version k machine)
        (get_cluster_from_metadata machine.meta ∷ log) (p.cluster_from_metadata log machine.meta),
  )

  length-reconcile_body :
      (log : Log) → length (reconcile_body p k log).log ≤ length log + (most k + 3)
  unfolding reconcile_body
  length-reconcile_body log =
      omega
        (arith, length-machine_answer (get_owner_machine k.meta ∷ log) (p.owner_machine log k.meta))

-- Where `range` visits each entry once, a reconciliation of a machine that is found, with n templates
-- of volume claims, makes at most 11 + 2 n calls, whatever they answer.
pub length-reconcile :
    (p : Platform) (req : NamespacedName) (log : Log) (k : KubernetesMachine)
    → RangeLaw p
    → p.kubernetes_machine log req ≡ ok k
    → length (reconcile p req log).1 ≤ length log + (11 + 2 * length k.spec.volume_claim_templates)
unfolding reconcile with_object patch_deferred
length-reconcile p req log k law found =
    ground (arith, found, length-reconcile_body p law k (get_kubernetes_machine req ∷ log))
