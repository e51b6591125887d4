-- ===== src/Controllers/Machine/Cases.antt =====
-- The branches of `reconcileNormal` up to the lookup of the pod, and what creating a pod leaves alone.
use cluster_api_provider_kub.Platform.{Platform, Log, get_pod}
use cluster_api_provider_kub.Controllers.Machine.Normal.{
  pod_key, with_answer, reconcile_normal, add_finalizers, get_or_create_pod, has_failed,
}
use cluster_api_provider_kub.Controllers.Machine.MachinePod.{
  create_built, create_machine_pod, machine_pod,
}
use cluster_api_provider_kub.Kube.{Cluster, Machine, Pod}
use cluster_api_provider_kub.Api.V1alpha3.{KubernetesMachine}
use cluster_api_provider_kub.Go.{Result, err, ok}
use cluster_api_provider_kub.Controllers.Machine.Names.{machine_pod_name}
use cluster_api_provider_kub.Prelude.{◌≡◌, false, true, is_some, ◌∷◌, refl}
use cluster_api_provider_kub.Controllers.Common.{stop}

object-create_built :
    (p : Platform) (k : KubernetesMachine) (log : Log) (r : Result Pod)
    → (create_built p k log r).object ≡ k
unfolding create_built
object-create_built p k log (err e) = refl
object-create_built p k log (ok pod) = refl

-- Creating the pod changes nothing of the machine.
pub object-create_machine_pod :
    (p : Platform) (cluster : Cluster) (machine : Machine) (k : KubernetesMachine) (log : Log)
    → (create_machine_pod p cluster machine k log).object ≡ k
unfolding create_machine_pod
object-create_machine_pod p cluster machine k log =
    object-create_built p k log (machine_pod p cluster machine k)

module _ (p : Platform) (cluster : Cluster) (machine : Machine) (k : KubernetesMachine) where
  pub reconcile_normal_failed :
      (log : Log) → has_failed k ≡ true → reconcile_normal p cluster machine k log ≡ stop k log
  unfolding reconcile_normal
  reconcile_normal_failed log f = rw f

  pub reconcile_normal_no_data :
      (log : Log)
      → has_failed k ≡ false
      → is_some machine.data_secret_name ≡ false
      → reconcile_normal p cluster machine k log ≡ stop (add_finalizers p k) log
  unfolding reconcile_normal
  reconcile_normal_no_data log f d = rw (f, d)

  pub reconcile_normal_data :
      (log : Log)
      → has_failed k ≡ false
      → is_some machine.data_secret_name ≡ true
      → reconcile_normal p cluster machine k log
        ≡ with_answer p cluster machine
            (add_finalizers p k)
            (get_pod (pod_key p machine k) ∷ log)
            (p.pod log (pod_key p machine k))
  unfolding reconcile_normal get_or_create_pod add_finalizers pod_key machine_pod_name
  reconcile_normal_data log f d = rw (f, d)

  pub status-add_finalizers : (add_finalizers p k).status ≡ k.status
  unfolding add_finalizers
  status-add_finalizers = refl
