-- ===== src/Controllers/Machine/Release.antt =====
-- A run of `Reconcile` on a KubernetesMachine that is being deleted.
use cluster_api_provider_kub.Prelude.{
  inl, inr, not, Bool-cases, ◌≡◌, ◌∷◌, none, some, true, false, is_some, In, arith, ◌∙◌, refl,
  String, ◌⊎◌,
}
use cluster_api_provider_kub.Go.{ok}
use cluster_api_provider_kub.Kube.{NamespacedName, Machine, Cluster}
use cluster_api_provider_kub.Api.V1alpha3.{
  KubernetesMachine, KubernetesCluster, kubernetes_machine_finalizer,
}
use cluster_api_provider_kub.Platform.{
  Platform, Log, patch_machine, get_kubernetes_machine, get_owner_machine,
  get_cluster_from_metadata, get_kubernetes_cluster,
}
use cluster_api_provider_kub.Platform.Lawful.{FinalizersLaw}
use cluster_api_provider_kub.Controllers.Common.{returned, empty_result, deferred_exit}
use cluster_api_provider_kub.Controllers.Machine.Delete.{remove_machine_finalizer, reconcile_delete}
use cluster_api_provider_kub.Controllers.Machine.Deletion.{Goes, reconcile_delete-Releases}
use cluster_api_provider_kub.Controllers.Machine.Reconcile.{
  reconcile, reconcile_version, reconcile_phase, reconcile_body, machine_answer, with_machine,
  cluster_answer, with_cluster, with_infrastructure, dispatch,
}
use cluster_api_provider_kub.Controllers.Machine.Deferred.{reconcile-deferred_exit}

-- A machine that is being deleted is read, with its Machine, its Cluster and the Cluster's
-- infrastructure; neither is paused.
pub record Leaving (p : Platform) (req : NamespacedName) (log : Log) (k : KubernetesMachine)
    (machine : Machine) (cluster : Cluster) : Type 0 where
  pub found : p.kubernetes_machine log req ≡ ok k
  pub helped : p.new_helper ≡ none
  pub owned : p.owner_machine (get_kubernetes_machine req ∷ log) k.meta ≡ ok (some machine)
  pub member :
      p.cluster_from_metadata
        (get_owner_machine k.meta ∷ get_kubernetes_machine req ∷ log)
        machine.meta
      ≡ ok (some cluster)
  pub infrastructure : String
  pub referenced : cluster.infrastructure_ref ≡ some infrastructure
  pub kubernetes_cluster : KubernetesCluster
  pub infrastructure_found :
      p.kubernetes_cluster
        (get_cluster_from_metadata machine.meta
          ∷ get_owner_machine k.meta
          ∷ get_kubernetes_machine req
          ∷ log)
        (record { namespace = k.meta.namespace; name = infrastructure })
      ≡ ok kubernetes_cluster
  pub unpaused : p.is_paused cluster k.meta ≡ false
  pub deleted : is_some k.meta.deletion_timestamp ≡ true

module _ (p : Platform) (law : FinalizersLaw p) (req : NamespacedName) (log : Log)
    (k : KubernetesMachine) (machine : Machine) (cluster : Cluster)
    (leaving : Leaving p req log k machine cluster) where
  -- The calls before `reconcileDelete`.
  abbrev pub calls_before : Log
  calls_before =
      get_kubernetes_cluster
        (record { namespace = k.meta.namespace; name = leaving.infrastructure })
      ∷ get_cluster_from_metadata machine.meta
      ∷ get_owner_machine k.meta
      ∷ get_kubernetes_machine req
      ∷ log

  reconcile_body-delete :
      reconcile_body p k (get_kubernetes_machine req ∷ log)
      ≡ reconcile_delete p machine (reconcile_version k machine) cluster calls_before
  unfolding reconcile_body machine_answer with_machine cluster_answer with_cluster
      with_infrastructure dispatch reconcile_version
  reconcile_body-delete = ground (
    arith, leaving.owned, leaving.member, leaving.referenced, leaving.infrastructure_found,
    leaving.unpaused, leaving.deleted,
  )

  -- Where removing a finalizer leaves nothing of it and a patch succeeds: the run of `Reconcile` on a
  -- machine that is being deleted, and that may go because its cluster is being deleted, it is no
  -- control plane's, or its pod is gone, is another's or has been reset with no error, ends with a
  -- patch of the machine without the finalizer, and returns no error and no time to come back at.
  pub reconcile-Goes :
      ((l : Log) (k' : KubernetesMachine) → p.machine_patched l k' ≡ none)
      → Goes p machine (reconcile_version k machine) cluster calls_before
      → (k' : KubernetesMachine) × (before : Log) × ((reconcile p req log).1
          ≡ patch_machine k' ∷ before)
        × (¬ In kubernetes_machine_finalizer k'.meta.finalizers)
        × ((reconcile p req log).0 ≡ returned empty_result none)
  unfolding reconcile_phase deferred_exit
  reconcile-Goes patched g =
      let run = reconcile_delete p machine (reconcile_version k machine) cluster calls_before in
      let (calls, exit) =
        reconcile-deferred_exit p req log k leaving.found leaving.helped run
          reconcile_body-delete in
      let (gone, returns) =
        reconcile_delete-Releases p law machine (reconcile_version k machine) cluster calls_before
          g in
      (
        reconcile_phase run.object,
        run.log,
        calls,
        gone,
        exit ∙ rw (patched run.log (reconcile_phase run.object), returns) refl,
      )

-- Where removing a finalizer leaves none of it, a deleted machine that is no control plane's, or
-- whose cluster is being deleted, has no finalizer of ours after `reconcileDelete`, which makes no
-- call and returns no error.
reconcile_delete_free :
    (p : Platform) (law : FinalizersLaw p) (machine : Machine) (k : KubernetesMachine)
    (cluster : Cluster) (log : Log)
    → (is_some cluster.meta.deletion_timestamp ≡ true)
      ⊎ (p.is_control_plane_machine machine ≡ false)
    → (¬ In kubernetes_machine_finalizer
        (reconcile_delete p machine k cluster log).object.meta.finalizers)
      × ((reconcile_delete p machine k cluster log).log ≡ log)
      × ((reconcile_delete p machine k cluster log).exit ≡ returned empty_result none)
unfolding reconcile_delete remove_machine_finalizer
reconcile_delete_free p law machine k cluster log (inl d) =
    rw d (law.not_in_remove k.meta.finalizers kubernetes_machine_finalizer, refl, refl)
reconcile_delete_free p law machine k cluster log (inr c) =
    elim (Bool-cases (not (is_some cluster.meta.deletion_timestamp))) [
      | inl e ↦
          rw (e, c) (law.not_in_remove k.meta.finalizers kubernetes_machine_finalizer, refl, refl)
      | inr e ↦ rw e (law.not_in_remove k.meta.finalizers kubernetes_machine_finalizer, refl, refl)
    ]
