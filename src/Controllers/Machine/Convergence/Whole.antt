-- ===== src/Controllers/Machine/Convergence/Whole.antt =====
-- Repeated runs of `Reconcile` on an API server that keeps what is patched.
use cluster_api_provider_kub.Prelude.{
  ℕ, zero, suc, ◌≡◌, ◌∷◌, ◌∙◌, ap, none, some, true, false, arith, String,
}
use cluster_api_provider_kub.Go.{ok}
use cluster_api_provider_kub.Kube.{ObjectMeta, NamespacedName, Cluster, Machine}
use cluster_api_provider_kub.Api.V1alpha3.{KubernetesMachine, KubernetesCluster}
use cluster_api_provider_kub.Platform.{
  Platform, Log, patch_machine, get_kubernetes_cluster, get_cluster_from_metadata,
  get_owner_machine, get_kubernetes_machine,
}
use cluster_api_provider_kub.Controllers.Common.{Run, deferred_exit}
use cluster_api_provider_kub.Controllers.Machine.Normal.{reconcile_normal}
use cluster_api_provider_kub.Controllers.Machine.Reconcile.{
  with_cluster, with_infrastructure, dispatch, reconcile_body, machine_answer, with_machine,
  cluster_answer, reconcile_version, patch_deferred, reconcile, reconcile_phase,
}
use cluster_api_provider_kub.Controllers.Machine.History.{reconciled, reconciled-Follows}
use cluster_api_provider_kub.Controllers.Machine.Deferred.{reconcile-deferred_exit}
use cluster_api_provider_kub.Controllers.Metadata.{Resembles, Resembles-trans}

-- What the API server says of a machine `k` that is asked for by `req`: what is patched is what is read
-- next; its Machine and its Cluster are there, the Cluster's infrastructure is there and ready, and
-- neither is paused.
pub record Attached (p : Platform) (req : NamespacedName) (cluster : Cluster) (machine : Machine)
    (k : KubernetesMachine) : Type 0 where
  pub helped : p.new_helper ≡ none
  pub patched : (log : Log) (k' : KubernetesMachine) → p.machine_patched log k' ≡ none
  pub kept :
      (log : Log) (k' : KubernetesMachine)
      → Resembles k.meta k'.meta
      → p.kubernetes_machine (patch_machine k' ∷ log) req ≡ ok k'
  pub owned :
      (log : Log) (m : ObjectMeta) → Resembles k.meta m → p.owner_machine log m ≡ ok (some machine)
  pub member : (log : Log) → p.cluster_from_metadata log machine.meta ≡ ok (some cluster)
  pub infrastructure : String
  pub referenced : cluster.infrastructure_ref ≡ some infrastructure
  pub infrastructure_found :
      (log : Log)
      → (c : KubernetesCluster) × (p.kubernetes_cluster log
            (record { namespace = k.meta.namespace; name = infrastructure })
          ≡ ok c)
  pub infrastructure_ready : cluster.infrastructure_ready ≡ true
  pub unpaused : (m : ObjectMeta) → Resembles k.meta m → p.is_paused cluster m ≡ false
  pub undeleted : k.meta.deletion_timestamp ≡ none

module _ (p : Platform) (req : NamespacedName) (cluster : Cluster) (machine : Machine)
    (k : KubernetesMachine) (attached : Attached p req cluster machine k) where
  abbrev infrastructure_key : KubernetesMachine → NamespacedName
  infrastructure_key k' = record { namespace = k'.meta.namespace; name = attached.infrastructure }

  -- The calls before `reconcileNormal`.
  abbrev pub read_calls : KubernetesMachine → Log → Log
  read_calls k' log =
      get_kubernetes_cluster
        (record { namespace = k'.meta.namespace; name = attached.infrastructure })
      ∷ get_cluster_from_metadata machine.meta
      ∷ get_owner_machine k'.meta
      ∷ log

  with_cluster-normal :
      (k' : KubernetesMachine) (log : Log)
      → Resembles k.meta k'.meta
      → with_cluster p machine cluster k' log
        ≡ reconcile_normal p cluster machine k'
            (get_kubernetes_cluster (infrastructure_key k') ∷ log)
  unfolding with_cluster with_infrastructure dispatch
  with_cluster-normal k' log like =
      let (c, found) = attached.infrastructure_found log in
      let ns : k'.meta.namespace ≡ k.meta.namespace = ap (λ (m : ObjectMeta). m.namespace) like in
      let kept : k'.meta.deletion_timestamp ≡ none =
        ap (λ (m : ObjectMeta). m.deletion_timestamp) like ∙ attached.undeleted in
      ground (
        arith,
        attached.referenced,
        found,
        ns,
        kept,
        attached.unpaused k'.meta like,
        attached.infrastructure_ready,
      )

  -- The body of `Reconcile` gets to `reconcileNormal`.
  reconcile_body-normal :
      (k' : KubernetesMachine) (log : Log)
      → Resembles k.meta k'.meta
      → reconcile_body p k' log
        ≡ reconcile_normal p cluster machine (reconcile_version k' machine) (read_calls k' log)
  unfolding reconcile_body machine_answer with_machine cluster_answer reconcile_version
  reconcile_body-normal k' log like =
      rw
        (
          attached.owned log k'.meta like,
          machine_answer,
          attached.member (get_owner_machine k'.meta ∷ log),
          cluster_answer,
        )
        (with_cluster-normal (reconcile_version k' machine)
          (get_cluster_from_metadata machine.meta ∷ get_owner_machine k'.meta ∷ log) like)

  -- The machine after `reconcileNormal`, in a run that reads `k'`.
  abbrev pub normal_run : KubernetesMachine → Log → Run KubernetesMachine
  normal_run k' log =
      reconcile_normal p cluster machine (reconcile_version k' machine)
        (read_calls k' (get_kubernetes_machine req ∷ log))

  -- What is read after a run is what the run patched.
  pub reconcile-read :
      (k' : KubernetesMachine) (log : Log)
      → Resembles k.meta k'.meta
      → p.kubernetes_machine log req ≡ ok k'
      → ((reconcile p req log).1
          ≡ patch_machine (reconcile_phase (normal_run k' log).object) ∷ (normal_run k' log).log)
        × ((reconcile p req log).0 ≡ deferred_exit (normal_run k' log).exit none)
        × Resembles k.meta (reconcile_phase (normal_run k' log).object).meta
        × (p.kubernetes_machine (reconcile p req log).1 req
            ≡ ok (reconcile_phase (normal_run k' log).object))
  unfolding reconciled patch_deferred
  reconcile-read k' log like read =
      let body = reconcile_body-normal k' (get_kubernetes_machine req ∷ log) like in
      let (calls, exit) =
        reconcile-deferred_exit p req log k' read attached.helped (normal_run k' log) body in
      let follows = reconciled-Follows p (get_kubernetes_machine req ∷ log) k' in
      let left : reconciled p (get_kubernetes_machine req ∷ log) k'
          ≡ reconcile_phase (normal_run k' log).object =
        ap (λ r. reconcile_phase (r.object)) body in
      let like' : Resembles k.meta (reconcile_phase (normal_run k' log).object).meta =
        Resembles-trans k.meta k'.meta (reconcile_phase (normal_run k' log).object).meta like
          (rw left at follows.meta_kept) in
      (
        calls,
        rw (attached.patched (normal_run k' log).log (reconcile_phase (normal_run k' log).object))
            at exit,
        like',
        ap (λ l. p.kubernetes_machine l req) calls
            ∙ attached.kept (normal_run k' log).log (reconcile_phase (normal_run k' log).object)
                like',
      )

-- The log after runs of `Reconcile`, each after the calls of the ones before.
unfoldable pub reconciles : Platform → NamespacedName → Log → ℕ → Log
reconciles p req log zero = log
reconciles p req log (suc n) = (reconcile p req (reconciles p req log n)).1
