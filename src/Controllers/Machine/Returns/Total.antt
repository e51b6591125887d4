-- ===== src/Controllers/Machine/Returns/Total.antt =====
-- `Reconcile` returns, or something that it reads is the culprit.
use cluster_api_provider_kub.Prelude.{
  not, ◌⊎◌, true, ◌≡◌, refl, arith, ◌∷◌, Option, none, some, inl, inr, Option-cases, is_some,
}
use cluster_api_provider_kub.Go.{Result, ok, err, Error, Result-cases}
use cluster_api_provider_kub.Kube.{Cluster, Machine, Pod, NamespacedName}
use cluster_api_provider_kub.Api.V1alpha3.{KubernetesMachine, KubernetesCluster}
use cluster_api_provider_kub.Platform.{
  Platform, Log, get_pod, get_cluster_from_metadata, get_owner_machine, get_kubernetes_machine,
  get_kubernetes_cluster, patch_machine,
}
use cluster_api_provider_kub.Controllers.Common.{
  Run, panicked, Exit, returned, deferred_exit, CtrlResult,
}
use cluster_api_provider_kub.Controllers.Machine.Delete.{
  reset_answer, after_reset, reconcile_delete, delete_key, kubeadm_reset,
}
use cluster_api_provider_kub.Controllers.Machine.Reconcile.{
  with_infrastructure, with_cluster, dispatch, reconcile, reconcile_body, with_object,
  machine_answer, with_machine, patch_deferred, cluster_answer, reconcile_version, reconcile_phase,
}
use cluster_api_provider_kub.Controllers.Machine.Returns.{
  is_returned, reconcile_normal-Returns, Returns, returns, culprit, Returns-if, Returns-weaken,
  EmptyCommandRead,
}

-- Why `Reconcile` panics, and after which calls. The machine's owner has a Cluster, which was read last,
-- with no infrastructure reference; or the value of the owner's Secret, which was read last, is a
-- cloud-config with a runcmd of which the parser of YAML reads an entry that is null or an empty list.
pub data Culprit (p : Platform) (req : NamespacedName) (log calls : Log) : Type 0 where
  no_infrastructure :
      (k : KubernetesMachine) (machine : Machine) (cluster : Cluster)
      → p.kubernetes_machine log req ≡ ok k
      → p.owner_machine (get_kubernetes_machine req ∷ log) k.meta ≡ ok (some machine)
      → p.cluster_from_metadata
          (get_owner_machine k.meta ∷ get_kubernetes_machine req ∷ log)
          machine.meta
        ≡ ok (some cluster)
      → cluster.infrastructure_ref ≡ none
      → calls
        ≡ get_cluster_from_metadata machine.meta
          ∷ get_owner_machine k.meta
          ∷ get_kubernetes_machine req
          ∷ log
      → Culprit p req log calls
  empty_command :
      (k : KubernetesMachine) (machine : Machine)
      → p.kubernetes_machine log req ≡ ok k
      → p.owner_machine (get_kubernetes_machine req ∷ log) k.meta ≡ ok (some machine)
      → EmptyCommandRead p machine calls
      → Culprit p req log calls

module _ (p : Platform) where
  after_reset_returns :
      (k : KubernetesMachine) (r : Option Error × Log) → is_returned (after_reset p k r).exit ≡ true
  unfolding after_reset
  after_reset_returns k (none, log) = refl
  after_reset_returns k (some e, log) = refl

  reset_answer_returns :
      (k : KubernetesMachine) (log : Log) (r : Result Pod)
      → is_returned (reset_answer p k log r).exit ≡ true
  unfolding reset_answer
  reset_answer_returns k log (ok pod) =
      ground (arith, after_reset_returns k (kubeadm_reset p log pod))
  reset_answer_returns k log (err e) = ground arith

  reconcile_delete_returns :
      (machine : Machine) (k : KubernetesMachine) (cluster : Cluster) (log : Log)
      → is_returned (reconcile_delete p machine k cluster log).exit ≡ true
  unfolding reconcile_delete
  reconcile_delete_returns machine k cluster log = ground (
    arith,
    reset_answer_returns k (get_pod (delete_key p machine k) ∷ log)
        (p.pod log (delete_key p machine k)),
  )

  with_infrastructure-Returns :
      (machine : Machine) (cluster : Cluster) (k : KubernetesMachine) (log : Log)
      (r : Result KubernetesCluster)
      → Returns (EmptyCommandRead p machine) (with_infrastructure p machine cluster k log r)
  unfolding with_infrastructure dispatch
  with_infrastructure-Returns machine cluster k log (err e) = returns refl
  with_infrastructure-Returns machine cluster k log (ok c) =
      Returns-if (p.is_paused cluster k.meta) _ _ (returns refl) (
        Returns-if (is_some k.meta.deletion_timestamp) _ _
          (returns (reconcile_delete_returns machine k cluster log))
          (Returns-if (not cluster.infrastructure_ready) _ _ (returns refl)
            (reconcile_normal-Returns p cluster machine k log)))

  with_cluster-Returns :
      (machine : Machine) (cluster : Cluster) (k : KubernetesMachine) (log : Log) {C : Log → Type 0}
      → (cluster.infrastructure_ref ≡ none → C log)
      → ((l : Log) → EmptyCommandRead p machine l → C l)
      → Returns C (with_cluster p machine cluster k log)
  unfolding with_cluster
  with_cluster-Returns machine cluster k log bare emptied =
      elim (Option-cases cluster.infrastructure_ref) [
        | inl q ↦ rw (q, with_cluster) (culprit (bare q))
        | inr (name, q) ↦
            let key : NamespacedName = record { namespace = k.meta.namespace; name = name } in
            rw (q, with_cluster)
              (Returns-weaken _ emptied (
                with_infrastructure-Returns machine cluster k (get_kubernetes_cluster key ∷ log)
                  (p.kubernetes_cluster log key)))
      ]

  module _ (req : NamespacedName) (log : Log) (k : KubernetesMachine)
      (found : p.kubernetes_machine log req ≡ ok k) where
    abbrev asked : Log
    asked = get_kubernetes_machine req ∷ log

    cluster_answer-Returns :
        (machine : Machine)
        → p.owner_machine asked k.meta ≡ ok (some machine)
        → (r : Result (Option Cluster))
        → p.cluster_from_metadata (get_owner_machine k.meta ∷ asked) machine.meta ≡ r
        → Returns (Culprit p req log) (
            cluster_answer p machine
              (reconcile_version k machine)
              (get_cluster_from_metadata machine.meta ∷ get_owner_machine k.meta ∷ asked)
              r)
    unfolding cluster_answer
    cluster_answer-Returns machine owned (err e) q = returns refl
    cluster_answer-Returns machine owned (ok none) q = returns refl
    cluster_answer-Returns machine owned (ok (some cluster)) q =
        with_cluster-Returns machine cluster (reconcile_version k machine) _
          (λ bare. no_infrastructure k machine cluster found owned q bare refl)
          (λ l. empty_command k machine found owned)

    reconcile_body-Returns : Returns (Culprit p req log) (reconcile_body p k asked)
    unfolding reconcile_body machine_answer with_machine
    reconcile_body-Returns = elim (Result-cases (p.owner_machine asked k.meta)) [
      | inl (e, q) ↦ rw (q, machine_answer) (returns refl)
      | inr (none, q) ↦ rw (q, machine_answer) (returns refl)
      | inr (some machine, q) ↦ rw (q, machine_answer) (cluster_answer-Returns machine q _ refl)
    ]

  deferred_exit_returns :
      (x : Exit) (e : Option Error) → is_returned x ≡ true → is_returned (deferred_exit x e) ≡ true
  unfolding deferred_exit
  deferred_exit_returns (returned result none) e h = refl
  deferred_exit_returns (returned result (some e')) e h = refl
  deferred_exit_returns panicked e h = h

  -- How `Reconcile` ends: with a result, or after the patch after a culprit.
  abbrev Ending : NamespacedName → Log → Exit × Log → Type 0
  Ending req log (exit, log') =
      (is_returned exit ≡ true)
      ⊎ ((k' : KubernetesMachine) × (calls : Log) × (log' ≡ patch_machine k' ∷ calls)
          × Culprit p req log calls)

  patch_deferred-Ending :
      (req : NamespacedName) (log : Log) (run : Run KubernetesMachine)
      → Returns (Culprit p req log) run
      → Ending req log ((patch_deferred p run).exit, (patch_deferred p run).log)
  unfolding patch_deferred
  patch_deferred-Ending req log run (culprit c) = inr (reconcile_phase run.object, run.log, refl, c)
  patch_deferred-Ending req log run (returns h) = inl (deferred_exit_returns run.exit _ h)

  with_object-Ending :
      (req : NamespacedName) (log : Log) (r : Result KubernetesMachine)
      → p.kubernetes_machine log req ≡ r
      → Ending req log (with_object p (get_kubernetes_machine req ∷ log) r)
  unfolding with_object
  with_object-Ending req log (err e) q = inl refl
  with_object-Ending req log (ok k) q =
      with_helper
        (patch_deferred-Ending req log (reconcile_body p k (get_kubernetes_machine req ∷ log))
          (reconcile_body-Returns req log k q))
        (Option-cases p.new_helper)
    where
      with_helper :
          Ending req log (
            (patch_deferred p (reconcile_body p k (get_kubernetes_machine req ∷ log))).exit,
            (patch_deferred p (reconcile_body p k (get_kubernetes_machine req ∷ log))).log,
          )
          → (p.new_helper ≡ none) ⊎ ((e : Error) × (p.new_helper ≡ some e))
          → Ending req log (with_object p (get_kubernetes_machine req ∷ log) (ok k))
      with_helper h (inr (e, n)) = inl (rw (n, with_object) refl)
      with_helper (inl h) (inl n) = inl (rw (n, with_object) h)
      with_helper (inr (k', calls, e, c)) (inl n) = inr (k', calls, rw (n, with_object) e, c)

-- Whatever the platform answers, `Reconcile` returns a result and an error or none; or else it panics
-- for one of two reasons, and before the panic goes on, the machine is patched. Either the Cluster of
-- the machine's owner was read last, and has no infrastructure reference; or the owner's bootstrap data
-- was read last, and is a cloud-config with a runcmd of which the parser of YAML reads an entry that is
-- null or an empty list.
pub reconcile_returns :
    (p : Platform) (req : NamespacedName) (log : Log)
    → ((result : CtrlResult) × (e : Option Error) × ((reconcile p req log).0 ≡ returned result e))
      ⊎ (((reconcile p req log).0 ≡ panicked)
          × ((k' : KubernetesMachine) × (calls : Log) × ((reconcile p req log).1
                ≡ patch_machine k' ∷ calls)
              × Culprit p req log calls))
unfolding reconcile
reconcile_returns p req log =
    ends (reconcile p req log) (with_object-Ending p req log (p.kubernetes_machine log req) refl)
  where
    ends :
        (o : Exit × Log)
        → Ending p req log o
        → ((result : CtrlResult) × (e : Option Error) × (o.0 ≡ returned result e))
          ⊎ ((o.0 ≡ panicked)
              × ((k' : KubernetesMachine) × (calls : Log) × (o.1 ≡ patch_machine k' ∷ calls)
                  × Culprit p req log calls))
    ends (returned result e, l) h = inl (result, e, refl)
    ends (panicked, l) (inl h) = absurd (cc h)
    ends (panicked, l) (inr c) = inr (refl, c)
