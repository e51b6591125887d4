-- ===== src/Controllers/Machine/Deferred.antt =====
-- What `Reconcile` does whatever its body does: the deferred function's patch.
use cluster_api_provider_kub.Prelude.{Option, refl, none, some, ◌∷◌, ◌≡◌, ap, arith, ◌∙◌}
use cluster_api_provider_kub.Go.{ok, Error}
use cluster_api_provider_kub.Kube.{NamespacedName, Machine, Cluster}
use cluster_api_provider_kub.Api.V1alpha3.{KubernetesMachine}
use cluster_api_provider_kub.Platform.{
  Platform, Log, get_kubernetes_machine, patch_machine, get_owner_machine,
  get_cluster_from_metadata,
}
use cluster_api_provider_kub.Controllers.Common.{
  panicked, deferred_exit, panic_run, Run, Exit, returned, CtrlResult,
}
use cluster_api_provider_kub.Controllers.Machine.Phase.{HasPhase, reconcile_phase-HasPhase}
use cluster_api_provider_kub.Controllers.Machine.Reconcile.{
  reconcile, with_object, patch_deferred, reconcile_body, reconcile_phase, reconcile_version,
  machine_answer, with_machine, cluster_answer, with_cluster,
}

-- How `Reconcile` ends, by how the run of its body ended and what the patch after it answered.
pub data Leaves (before : Exit) (patch_error : Option Error) (after : Exit) : Type 0 where
  panics : before ≡ panicked → after ≡ panicked → Leaves before patch_error after
  keeps_error :
      (r : CtrlResult) (e : Error)
      → before ≡ returned r (some e)
      → after ≡ returned r (some e)
      → Leaves before patch_error after
  takes_patch_error :
      (r : CtrlResult)
      → before ≡ returned r none
      → after ≡ returned r patch_error
      → Leaves before patch_error after

deferred_exit-Leaves : (x : Exit) (e : Option Error) → Leaves x e (deferred_exit x e)
unfolding deferred_exit
deferred_exit-Leaves panicked e = panics refl refl
deferred_exit-Leaves (returned r none) e = takes_patch_error r refl refl
deferred_exit-Leaves (returned r (some x)) e = keeps_error r x refl refl

module _ (p : Platform) (req : NamespacedName) (log : Log) (k : KubernetesMachine)
    (found : p.kubernetes_machine log req ≡ ok k) (helped : p.new_helper ≡ none) where
  reconcile_eq :
      let run = patch_deferred p (reconcile_body p k (get_kubernetes_machine req ∷ log)) in
      reconcile p req log ≡ (run.exit, run.log)
  unfolding reconcile with_object
  reconcile_eq = ground (arith, found, helped)

  pub reconcile-deferred_exit :
      (run : Run KubernetesMachine)
      → reconcile_body p k (get_kubernetes_machine req ∷ log) ≡ run
      → ((reconcile p req log).1 ≡ patch_machine (reconcile_phase run.object) ∷ run.log)
        × ((reconcile p req log).0
            ≡ deferred_exit run.exit (p.machine_patched run.log (reconcile_phase run.object)))
  unfolding patch_deferred
  reconcile-deferred_exit run e = (
    ap (λ r. r.1) reconcile_eq ∙ ap (λ r. (patch_deferred p r).log) e,
    ap (λ r. r.0) reconcile_eq ∙ ap (λ r. (patch_deferred p r).exit) e,
  )

  -- Where the machine is there and the patch helper is made, the last call of `Reconcile` patches
  -- the machine as the run of its body left it, with the phase that goes with it and nothing else
  -- changed, however the run ended. A panic goes on after it; where the run returned an error, that is
  -- the error; and where it returned none, the patch's error is, if any.
  pub reconcile-patched :
      (run : Run KubernetesMachine)
      → reconcile_body p k (get_kubernetes_machine req ∷ log) ≡ run
      → (k' : KubernetesMachine) × HasPhase run.object k'.status.phase
        × (k' ≡ record (run.object) {
          status = record (run.object.status) { phase = k'.status.phase };
        })
        × ((reconcile p req log).1 ≡ patch_machine k' ∷ run.log)
        × Leaves run.exit (p.machine_patched run.log k') (reconcile p req log).0
  reconcile-patched run e =
      let (calls, exit) = reconcile-deferred_exit run e in
      let (phase, same, _) = reconcile_phase-HasPhase run.object in
      (reconcile_phase run.object, phase, same, calls, rw exit (deferred_exit-Leaves run.exit _))

  -- Where the machine is there and the patch helper is made, `Reconcile` panics if the machine's
  -- owner has a cluster with no infrastructure reference. The machine is patched even so, with its
  -- version and phase.
  pub reconcile_no_infrastructure :
      (machine : Machine) (cluster : Cluster)
      → p.owner_machine (get_kubernetes_machine req ∷ log) k.meta ≡ ok (some machine)
      → p.cluster_from_metadata
          (get_owner_machine k.meta ∷ get_kubernetes_machine req ∷ log)
          machine.meta
        ≡ ok (some cluster)
      → cluster.infrastructure_ref ≡ none
      → ((reconcile p req log).0 ≡ panicked)
        × ((reconcile p req log).1
            ≡ patch_machine (reconcile_phase (reconcile_version k machine))
              ∷ get_cluster_from_metadata machine.meta
              ∷ get_owner_machine k.meta
              ∷ get_kubernetes_machine req
              ∷ log)
  unfolding reconcile_body machine_answer with_machine cluster_answer with_cluster deferred_exit
  reconcile_no_infrastructure machine cluster owned member bare =
      let (calls, exit) =
        reconcile-deferred_exit
          (panic_run (reconcile_version k machine) (
            get_cluster_from_metadata machine.meta
            ∷ get_owner_machine k.meta
            ∷ get_kubernetes_machine req
            ∷ log))
          (ground (arith, owned, member, bare)) in
      (exit, calls)
