-- ===== src/Controllers/Machine/Delete.antt =====
-- `KubernetesMachineReconciler.reconcileDelete` and `kubeadmReset`.
use cluster_api_provider_kub.Prelude.{
  not, ◌&&◌, Option, none, some, [], ◌∷◌, if◌then◌else◌, is_some,
}
use cluster_api_provider_kub.Go.{Error, wrapped, Result, ok, err}
use cluster_api_provider_kub.Kube.{NamespacedName, Pod, Cluster, Machine}
use cluster_api_provider_kub.Api.V1alpha3.{KubernetesMachine, kubernetes_machine_finalizer}
use cluster_api_provider_kub.Platform.{Platform, Log, get_pod}
use cluster_api_provider_kub.Utils.Exec.{kind_container_exec}
use cluster_api_provider_kub.Controllers.Common.{Run, stop, stop_with, is_not_found}
use cluster_api_provider_kub.Controllers.Machine.Names.{machine_pod_name}
use cluster_api_provider_kub.Controllers.Machine.Normal.{fail_machine, is_controlled_by}

module _ (p : Platform) where
  unfoldable pub remove_machine_finalizer : KubernetesMachine → KubernetesMachine
  remove_machine_finalizer k = record k {
    meta = record (k.meta) {
      finalizers = p.remove_finalizer k.meta.finalizers kubernetes_machine_finalizer;
    };
  }

  -- `kubeadmReset`
  unfoldable pub kubeadm_reset : Log → Pod → Option Error × Log
  kubeadm_reset log pod = kind_container_exec p log pod "kubeadm" ("reset" ∷ "--force" ∷ [])

  unfoldable pub after_reset : KubernetesMachine → Option Error × Log → Run KubernetesMachine
  after_reset k (none, log) = stop (remove_machine_finalizer k) log
  after_reset k (some e, log) = stop_with k log (some (wrapped "failed to execute kubeadm reset" e))

  -- The pod of a control plane that is to leave its cluster.
  unfoldable pub reset_answer : KubernetesMachine → Log → Result Pod → Run KubernetesMachine
  unfolding after_reset
  reset_answer k log (ok pod) =
      if is_controlled_by p pod.meta k.meta
      then after_reset k (kubeadm_reset log pod)
      else stop (remove_machine_finalizer k) log
  reset_answer k log (err e) =
      if is_not_found e
      then stop (fail_machine "Machine Pod cannot be found" (remove_machine_finalizer k)) log
      else stop_with k log (some e)

  unfoldable pub delete_key : Machine → KubernetesMachine → NamespacedName
  delete_key machine k = record { namespace = machine.meta.namespace; name = machine_pod_name k }

  -- `reconcileDelete`
  unfoldable pub reconcile_delete :
      Machine → KubernetesMachine → Cluster → Log → Run KubernetesMachine
  unfolding delete_key reset_answer
  reconcile_delete machine k cluster log =
      if not (is_some cluster.meta.deletion_timestamp) && p.is_control_plane_machine machine
      then reset_answer k (get_pod (delete_key machine k) ∷ log) (p.pod log (delete_key machine k))
      else stop (remove_machine_finalizer k) log
