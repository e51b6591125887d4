-- ===== src/Controllers/Machine/Reconcile.antt =====
-- `KubernetesMachineReconciler.Reconcile`, `reconcilePhase` and `reconcileVersion`.
use cluster_api_provider_kub.Prelude.{
  String, not, ◌&&◌, Option, none, some, ◌∷◌, if◌then◌else◌, is_some,
}
use cluster_api_provider_kub.Go.{Result, ok, err}
use cluster_api_provider_kub.Kube.{NamespacedName, Cluster, Machine}
use cluster_api_provider_kub.Api.V1alpha3.{
  KubernetesCluster, KubernetesMachine, KubernetesMachinePhase,
}
use cluster_api_provider_kub.Platform.{
  Platform, Log, get_kubernetes_machine, get_kubernetes_cluster, get_owner_machine,
  get_cluster_from_metadata, patch_machine,
}
use cluster_api_provider_kub.Controllers.Common.{
  empty_result, Exit, returned, Run, stop, stop_with, panic_run, is_not_found, deferred_exit,
}
use cluster_api_provider_kub.Controllers.Machine.Normal.{has_failed, reconcile_normal}
use cluster_api_provider_kub.Controllers.Machine.Delete.{reconcile_delete}

unfoldable pub set_phase : KubernetesMachinePhase → KubernetesMachine → KubernetesMachine
set_phase phase' k = record k { status = record (k.status) { phase = phase' } }

-- Set phase to "Pending" if nil.
unfoldable pub phase_if_unset : KubernetesMachinePhase → KubernetesMachinePhase
phase_if_unset KubernetesMachinePhase.unset = KubernetesMachinePhase.pending
phase_if_unset phase = phase

-- The later assignments overwrite the earlier ones.
unfoldable pub next_phase : KubernetesMachine → KubernetesMachinePhase
unfolding phase_if_unset
next_phase k =
    let p0 = phase_if_unset k.status.phase in
    let p1 =
      if is_some k.spec.provider_id && not k.status.ready
      then KubernetesMachinePhase.provisioning
      else p0 in
    let p2 =
      if is_some k.spec.provider_id && k.status.ready then KubernetesMachinePhase.running else p1 in
    let p3 = if has_failed k then KubernetesMachinePhase.failed else p2 in
    if is_some k.meta.deletion_timestamp then KubernetesMachinePhase.deleting else p3

-- `reconcilePhase`
unfoldable pub reconcile_phase : KubernetesMachine → KubernetesMachine
unfolding set_phase next_phase
reconcile_phase k = set_phase (next_phase k) k

unfoldable pub version_or : Option String → Option String → Option String
version_or (some v) old = some v
version_or none old = old

-- `reconcileVersion`
unfoldable pub reconcile_version : KubernetesMachine → Machine → KubernetesMachine
unfolding version_or
reconcile_version k m = record k {
  status = record (k.status) { version = version_or m.version k.status.version };
}

module _ (p : Platform) where
  -- From the check for a pause on.
  unfoldable pub dispatch : Machine → Cluster → KubernetesMachine → Log → Run KubernetesMachine
  dispatch machine cluster k log =
      if p.is_paused cluster k.meta
      then stop k log
      else if is_some k.meta.deletion_timestamp
      then reconcile_delete p machine k cluster log
      else if not cluster.infrastructure_ready
      then stop k log
      else reconcile_normal p cluster machine k log

  unfoldable pub with_infrastructure :
      Machine → Cluster → KubernetesMachine → Log → Result KubernetesCluster → Run KubernetesMachine
  with_infrastructure machine cluster k log (err e) = stop k log
  with_infrastructure machine cluster k log (ok _) = dispatch machine cluster k log

  -- `cluster.Spec.InfrastructureRef.Name` panics where the pointer is nil.
  unfoldable pub with_cluster : Machine → Cluster → KubernetesMachine → Log → Run KubernetesMachine
  unfolding with_infrastructure
  with_cluster machine cluster k log = elim cluster.infrastructure_ref [
    | none ↦ panic_run k log
    | some name' ↦
        let key : NamespacedName = record { namespace = k.meta.namespace; name = name' } in
        with_infrastructure machine cluster k (get_kubernetes_cluster key ∷ log)
          (p.kubernetes_cluster log key)
  ]

  unfoldable pub cluster_answer :
      Machine → KubernetesMachine → Log → Result (Option Cluster) → Run KubernetesMachine
  cluster_answer machine k log (err e) = stop_with k log (some e)
  cluster_answer machine k log (ok none) = stop k log
  cluster_answer machine k log (ok (some cluster)) = with_cluster machine cluster k log

  unfoldable pub with_machine : Machine → KubernetesMachine → Log → Run KubernetesMachine
  unfolding cluster_answer
  with_machine machine k log =
      cluster_answer machine k (get_cluster_from_metadata machine.meta ∷ log)
        (p.cluster_from_metadata log machine.meta)

  unfoldable pub machine_answer :
      KubernetesMachine → Log → Result (Option Machine) → Run KubernetesMachine
  unfolding with_machine
  machine_answer k log (err e) = stop_with k log (some e)
  machine_answer k log (ok none) = stop k log
  machine_answer k log (ok (some machine)) = with_machine machine (reconcile_version k machine) log

  -- `Reconcile` between the deferred function's registration and its call.
  unfoldable pub reconcile_body : KubernetesMachine → Log → Run KubernetesMachine
  unfolding machine_answer
  reconcile_body k log =
      machine_answer k (get_owner_machine k.meta ∷ log) (p.owner_machine log k.meta)

  -- The deferred function: the phase, and the patch of whatever the reconciliation left.
  unfoldable pub patch_deferred : Run KubernetesMachine → Run KubernetesMachine
  patch_deferred r =
      let k = reconcile_phase r.object in
      record {
        object = k;
        log = patch_machine k ∷ r.log;
        exit = deferred_exit r.exit (p.machine_patched r.log k);
      }

  unfoldable pub with_object : Log → Result KubernetesMachine → Exit × Log
  with_object log (err e) = (returned empty_result (if is_not_found e then none else some e), log)
  with_object log (ok k) = elim p.new_helper [
    | some e ↦ (returned empty_result (some e), log)
    | none ↦ let r = patch_deferred (reconcile_body k log) in (r.exit, r.log)
  ]

  -- `Reconcile`
  unfoldable pub reconcile : NamespacedName → Log → Exit × Log
  unfolding with_object
  reconcile req log = with_object (get_kubernetes_machine req ∷ log) (p.kubernetes_machine log req)
