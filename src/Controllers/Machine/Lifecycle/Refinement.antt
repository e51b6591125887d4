-- ===== src/Controllers/Machine/Lifecycle/Refinement.antt =====
-- A reconciliation of a machine makes at most one move between the stages.
use cluster_api_provider_kub.Prelude.{
  none, some, ap, ◌∙◌, sym, true, false, inl, inr, refl, Bool, ◌≡◌, if◌then◌else◌, Option,
  Option-cases, is_some, not, ◌&&◌,
}
use cluster_api_provider_kub.Go.{ok, err, Error, Result}
use cluster_api_provider_kub.Kube.{Machine, Cluster, Pod}
use cluster_api_provider_kub.Api.V1alpha3.{
  KubernetesMachineStatus, KubernetesMachine, KubernetesCluster,
}
use cluster_api_provider_kub.Platform.{Platform, Log}
use cluster_api_provider_kub.Controllers.Common.{Run, is_not_found}
use cluster_api_provider_kub.Controllers.Machine.History.{
  reconciliation, edit, here, next, Reach, reconciled,
}
use cluster_api_provider_kub.Controllers.Machine.Reconcile.{
  reconcile_phase, reconcile_version, patch_deferred, dispatch, with_infrastructure, with_cluster,
  cluster_answer, machine_answer, with_machine, reconcile_body,
}
use cluster_api_provider_kub.Controllers.Machine.Delete.{
  reconcile_delete, remove_machine_finalizer, reset_answer, after_reset, kubeadm_reset,
}
use cluster_api_provider_kub.Controllers.Machine.Normal.{
  reconcile_normal, has_failed, add_finalizers, is_controlled_by,
}
use cluster_api_provider_kub.Controllers.Machine.Changes.{reconcile_normal-Change}
use cluster_api_provider_kub.Controllers.Machine.Lifecycle.Stages.{
  IsProvided, Quiet, StageStep, Moves, Moves-Quiet, stage, Moves-then, Quiet-refl, after_Quiet,
  Moves-Change, Moves-fail_machine, Stage,
}

-- Changes of the metadata, of the version and of the phase.
Quiet-add_finalizers : (p : Platform) (k : KubernetesMachine) → Quiet k (add_finalizers p k)
unfolding add_finalizers has_failed
Quiet-add_finalizers p k = record {
  failed_same = refl;
  ready_same = refl;
  provided_same = refl;
  recreation_same = refl;
}

Quiet-remove_machine_finalizer :
    (p : Platform) (k : KubernetesMachine) → Quiet k (remove_machine_finalizer p k)
unfolding remove_machine_finalizer has_failed
Quiet-remove_machine_finalizer p k = record {
  failed_same = refl;
  ready_same = refl;
  provided_same = refl;
  recreation_same = refl;
}

Quiet-reconcile_version : (k : KubernetesMachine) (m : Machine) → Quiet k (reconcile_version k m)
unfolding reconcile_version has_failed
Quiet-reconcile_version k m = record {
  failed_same = refl;
  ready_same = refl;
  provided_same = refl;
  recreation_same = refl;
}

Quiet-reconcile_phase : (k : KubernetesMachine) → Quiet k (reconcile_phase k)
unfolding reconcile_phase has_failed
Quiet-reconcile_phase k = record {
  failed_same = refl;
  ready_same = refl;
  provided_same = refl;
  recreation_same = refl;
}

-- The object of a run is the machine after at most one move.
data Moved (k : KubernetesMachine) (r : Run KubernetesMachine) : Type 0 where
  moved_by : Moves k r.object → Moved k r

moves : (k : KubernetesMachine) (r : Run KubernetesMachine) → Moved k r → Moves k r.object
moves k r (moved_by m) = m

Moved-if :
    (k : KubernetesMachine) (b : Bool) (x y : Run KubernetesMachine)
    → Moved k x
    → Moved k y
    → Moved k (if b then x else y)
Moved-if k true x y mx my = mx
Moved-if k false x y mx my = my

module _ (p : Platform) where
  module _ (k : KubernetesMachine) (i : IsProvided k) where
    abbrev kept : (r : Run KubernetesMachine) → r.object ≡ k → Moved k r
    kept r e = moved_by (rw e (Moves-Quiet k k i (Quiet-refl k)))

    removed : (r : Run KubernetesMachine) → r.object ≡ remove_machine_finalizer p k → Moved k r
    removed r e =
        moved_by (
          rw e
            (Moves-Quiet k (remove_machine_finalizer p k) i (Quiet-remove_machine_finalizer p k)))

    Moved-reconcile_normal :
        (cluster : Cluster) (machine : Machine) (log : Log)
        → Moved k (reconcile_normal p cluster machine k log)
    unfolding add_finalizers has_failed
    Moved-reconcile_normal cluster machine log =
        elim (reconcile_normal-Change p cluster machine k log) [
          | inl (f, e) ↦ kept (reconcile_normal p cluster machine k log) e
          | inr (f, c) ↦ moved_by (
              after_Quiet k (add_finalizers p k) _ i (Quiet-add_finalizers p k)
                (λ i'. Moves-Change p (add_finalizers p k) f i' _ c))
        ]

    Moved-after_reset : (a : Option Error × Log) → Moved k (after_reset p k a)
    unfolding after_reset
    Moved-after_reset (none, log) = removed _ refl
    Moved-after_reset (some e, log) = kept _ refl

    Moved-reset_answer : (log : Log) (r : Result Pod) → Moved k (reset_answer p k log r)
    unfolding reset_answer
    Moved-reset_answer log (ok pod) =
        Moved-if k (is_controlled_by p pod.meta k.meta) _ _
          (Moved-after_reset (kubeadm_reset p log pod)) (removed _ refl)
    Moved-reset_answer log (err e) =
        Moved-if k (is_not_found e) _ _
          (moved_by (
            after_Quiet k (remove_machine_finalizer p k) _ i (Quiet-remove_machine_finalizer p k)
              (Moves-fail_machine "Machine Pod cannot be found" (remove_machine_finalizer p k))))
          (kept _ refl)

    Moved-reconcile_delete :
        (machine : Machine) (cluster : Cluster) (log : Log)
        → Moved k (reconcile_delete p machine k cluster log)
    unfolding reconcile_delete
    Moved-reconcile_delete machine cluster log =
        Moved-if k
          (not (is_some cluster.meta.deletion_timestamp) && p.is_control_plane_machine machine) _ _
          (Moved-reset_answer _ _) (removed _ refl)

    Moved-dispatch :
        (machine : Machine) (cluster : Cluster) (log : Log)
        → Moved k (dispatch p machine cluster k log)
    unfolding dispatch
    Moved-dispatch machine cluster log = Moved-if k (p.is_paused cluster k.meta) _ _ (kept _ refl) (
        Moved-if k (is_some k.meta.deletion_timestamp) _ _
          (Moved-reconcile_delete machine cluster log)
          (Moved-if k (not cluster.infrastructure_ready) _ _ (kept _ refl)
            (Moved-reconcile_normal cluster machine log)))

    Moved-with_infrastructure :
        (machine : Machine) (cluster : Cluster) (log : Log) (r : Result KubernetesCluster)
        → Moved k (with_infrastructure p machine cluster k log r)
    unfolding with_infrastructure
    Moved-with_infrastructure machine cluster log (err e) = kept _ refl
    Moved-with_infrastructure machine cluster log (ok c) = Moved-dispatch machine cluster log

    Moved-with_cluster :
        (machine : Machine) (cluster : Cluster) (log : Log)
        → Moved k (with_cluster p machine cluster k log)
    unfolding with_cluster
    Moved-with_cluster machine cluster log = elim (Option-cases cluster.infrastructure_ref) [
      | inl n ↦ rw (n, with_cluster) (kept _ refl)
      | inr (name, n) ↦
          rw (n, with_cluster)
            (Moved-with_infrastructure machine cluster _ (p.kubernetes_cluster log _))
    ]

    Moved-cluster_answer :
        (machine : Machine) (log : Log) (r : Result (Option Cluster))
        → Moved k (cluster_answer p machine k log r)
    unfolding cluster_answer
    Moved-cluster_answer machine log (err e) = kept _ refl
    Moved-cluster_answer machine log (ok none) = kept _ refl
    Moved-cluster_answer machine log (ok (some cluster)) = Moved-with_cluster machine cluster log

  Moved-machine_answer :
      (k : KubernetesMachine)
      → IsProvided k
      → (log : Log) (r : Result (Option Machine)) → Moved k (machine_answer p k log r)
  unfolding machine_answer with_machine
  Moved-machine_answer k i log (err e) = kept k i _ refl
  Moved-machine_answer k i log (ok none) = kept k i _ refl
  Moved-machine_answer k i log (ok (some machine)) = moved_by (
      after_Quiet k (reconcile_version k machine) _ i (Quiet-reconcile_version k machine)
        (λ i'. moves _ _ (Moved-cluster_answer (reconcile_version k machine) i' machine _ _)))

-- Whatever the platform answers, a reconciliation of a machine that is ready only with a provider ID
-- leaves it so, and makes at most one of the moves: from fresh to provided, from provided to ready,
-- from ready back to provided, which takes that recreation is allowed, and from anywhere to failed;
-- from failed there is none.
pub reconciled-StageStep :
    (p : Platform) (log : Log) (k : KubernetesMachine)
    → IsProvided k
    → IsProvided (reconciled p log k)
      × StageStep k.spec.allow_recreation (stage k) (stage (reconciled p log k))
unfolding reconciled patch_deferred reconcile_body
reconciled-StageStep p log k i =
    let m =
      Moves-then k _ _ (moves k _ (Moved-machine_answer p k i _ _)) (Quiet-reconcile_phase _) in
    (m.provided_kept, m.moved)

-- Any number of moves.
pub data StageSteps (s : Stage) : Stage → Type 0 where
  no_step : StageSteps s s
  one_step :
      {t u : Stage} (recreation : Bool) → StageSteps s t → StageStep recreation t u → StageSteps s u

edit-stage :
    (j l : KubernetesMachine)
    → l.status ≡ j.status
    → l.spec.provider_id ≡ j.spec.provider_id
    → stage l ≡ stage j
unfolding stage has_failed
edit-stage j l s e = rw (s, e) refl

-- Over any number of steps, each a reconciliation on some platform or an edit that leaves the status
-- and the provider ID alone, a machine that is ready only with a provider ID stays such, and its
-- stages are those of a number of moves.
pub Reach-StageSteps :
    (k : KubernetesMachine) {k' : KubernetesMachine}
    → IsProvided k
    → Reach k k'
    → IsProvided k' × StageSteps (stage k) (stage k')
Reach-StageSteps k i here = (i, no_step)
Reach-StageSteps k i (next {j = j} r (reconciliation p log e)) =
    let (i', steps) = Reach-StageSteps k i r in
    let (i'', step) = reconciled-StageStep p log j i' in
    rw e (i'', one_step j.spec.allow_recreation steps step)
Reach-StageSteps k i (next {j = j} {l = l} r (edit s e)) =
    let (i', steps) = Reach-StageSteps k i r in
    (
      λ ready'. ap is_some e ∙ i' (sym (ap (λ (t : KubernetesMachineStatus). t.ready) s) ∙ ready'),
      rw (edit-stage j l s e) steps,
    )
