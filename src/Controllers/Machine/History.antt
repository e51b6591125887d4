-- ===== src/Controllers/Machine/History.antt =====
-- What stays true of a KubernetesMachine over any sequence of reconciliations and edits.
use cluster_api_provider_kub.Prelude.{
  none, some, true, false, ◌≡◌, refl, arith, inl, inr, is_some, String, ap, Bool-cases, Option, not,
  ◌&&◌, Option-cases,
}
use cluster_api_provider_kub.Go.{ok, err, Result, Error}
use cluster_api_provider_kub.Kube.{Cluster, Machine, Pod}
use cluster_api_provider_kub.Api.V1alpha3.{
  KubernetesMachine, set_machine_failure_reason, set_machine_failure_message, KubernetesCluster,
}
use cluster_api_provider_kub.Platform.{Platform, Log}
use cluster_api_provider_kub.Controllers.Common.{is_not_found}
use cluster_api_provider_kub.Controllers.Machine.Changes.{
  Change, unchanged, failing, readying, unreadying, providing, reconcile_normal-Change,
}
use cluster_api_provider_kub.Controllers.Machine.Normal.{
  fail_machine, add_finalizers, set_ready, set_provider_id, has_failed, reconcile_normal,
  is_controlled_by,
}
use cluster_api_provider_kub.Controllers.Machine.Reconcile.{
  reconcile_phase, patch_deferred, with_cluster, cluster_answer, dispatch, machine_answer,
  reconcile_body, with_infrastructure, reconcile_version,
}
use cluster_api_provider_kub.Controllers.Machine.Delete.{
  remove_machine_finalizer, reconcile_delete, reset_answer, after_reset, kubeadm_reset,
}

-- `k'` is what `k` may become: of the specification at most the provider ID is new, and it is not
-- replaced; of the metadata at most the finalizers differ; a failure stays, and with it the machine
-- does not become ready.
pub record Follows (k k' : KubernetesMachine) : Type 0 where
  pub spec_kept : k'.spec ≡ record (k.spec) { provider_id = k'.spec.provider_id }
  pub provider_id_kept :
      is_some k.spec.provider_id ≡ true → k'.spec.provider_id ≡ k.spec.provider_id
  pub meta_kept : k'.meta ≡ record (k.meta) { finalizers = k'.meta.finalizers }
  pub failure_kept : has_failed k ≡ true → has_failed k' ≡ true
  pub failed_not_readied : has_failed k ≡ true → k.status.ready ≡ false → k'.status.ready ≡ false

Follows-refl : (k : KubernetesMachine) → Follows k k
Follows-refl k = record {
  spec_kept = refl;
  provider_id_kept = λ _. refl;
  meta_kept = refl;
  failure_kept = λ f. f;
  failed_not_readied = λ _ r. r;
}

Follows-trans : (j k l : KubernetesMachine) → Follows j k → Follows k l → Follows j l
Follows-trans j k l a b = record {
  spec_kept = ground (arith, a.spec_kept, b.spec_kept);
  provider_id_kept = λ h. ground (arith, a.provider_id_kept h, b.provider_id_kept);
  meta_kept = ground (arith, a.meta_kept, b.meta_kept);
  failure_kept = λ f. b.failure_kept (a.failure_kept f);
  failed_not_readied = λ f r. b.failed_not_readied (a.failure_kept f) (a.failed_not_readied f r);
}

Follows-add_finalizers : (p : Platform) (k : KubernetesMachine) → Follows k (add_finalizers p k)
unfolding add_finalizers has_failed
Follows-add_finalizers p k = record {
  spec_kept = refl;
  provider_id_kept = λ _. refl;
  meta_kept = refl;
  failure_kept = λ f. f;
  failed_not_readied = λ _ r. r;
}

Follows-remove_machine_finalizer :
    (p : Platform) (k : KubernetesMachine) → Follows k (remove_machine_finalizer p k)
unfolding remove_machine_finalizer has_failed
Follows-remove_machine_finalizer p k = record {
  spec_kept = refl;
  provider_id_kept = λ _. refl;
  meta_kept = refl;
  failure_kept = λ f. f;
  failed_not_readied = λ _ r. r;
}

Follows-fail_machine : (text : String) (k : KubernetesMachine) → Follows k (fail_machine text k)
unfolding fail_machine has_failed set_machine_failure_message set_machine_failure_reason
Follows-fail_machine text k = record {
  spec_kept = refl;
  provider_id_kept = λ _. refl;
  meta_kept = refl;
  failure_kept = λ f. refl;
  failed_not_readied = λ _ r. r;
}

Follows-reconcile_version :
    (k : KubernetesMachine) (m : Machine) → Follows k (reconcile_version k m)
unfolding reconcile_version has_failed
Follows-reconcile_version k m = record {
  spec_kept = refl;
  provider_id_kept = λ _. refl;
  meta_kept = refl;
  failure_kept = λ f. f;
  failed_not_readied = λ _ r. r;
}

Follows-reconcile_phase : (k : KubernetesMachine) → Follows k (reconcile_phase k)
unfolding reconcile_phase has_failed
Follows-reconcile_phase k = record {
  spec_kept = refl;
  provider_id_kept = λ _. refl;
  meta_kept = refl;
  failure_kept = λ f. f;
  failed_not_readied = λ _ r. r;
}

-- A machine that has not failed may change.
Follows-Change :
    (p : Platform) (k k' : KubernetesMachine) → has_failed k ≡ false → Change p k k' → Follows k k'
Follows-Change p k k' f (unchanged e) = rw e (Follows-refl k)
Follows-Change p k k' f (failing text e) = rw e (Follows-fail_machine text k)
Follows-Change p k k' f (readying _ e) = rw e (record {
  spec_kept = unfold set_ready in refl;
  provider_id_kept = λ _. unfold set_ready in refl;
  meta_kept = unfold set_ready in refl;
  failure_kept = λ t. cc (t, f);
  failed_not_readied = λ t. cc (t, f);
})
Follows-Change p k k' f (unreadying _ e) = rw e (record {
  spec_kept = unfold set_ready in refl;
  provider_id_kept = λ _. unfold set_ready in refl;
  meta_kept = unfold set_ready in refl;
  failure_kept = λ t. cc (t, f);
  failed_not_readied = λ t. cc (t, f);
})
Follows-Change p k k' f (providing pod n e) = rw e (record {
  spec_kept = unfold set_provider_id in refl;
  provider_id_kept = λ s. cc (s, ap is_some n);
  meta_kept = unfold set_provider_id in refl;
  failure_kept = λ t. cc (t, f);
  failed_not_readied = λ t. cc (t, f);
})

Follows-reconcile_normal :
    (p : Platform) (cluster : Cluster) (machine : Machine) (k : KubernetesMachine) (log : Log)
    → Follows k (reconcile_normal p cluster machine k log).object
Follows-reconcile_normal p cluster machine k log =
    elim (reconcile_normal-Change p cluster machine k log) [
      | inl (f, e) ↦ rw e (Follows-refl k)
      | inr (f, c) ↦
          Follows-trans _ (add_finalizers p k) _ (Follows-add_finalizers p k)
            (Follows-Change p (add_finalizers p k) _ (unfold add_finalizers has_failed in f) c)
    ]

Follows-reset_answer :
    (p : Platform) (k : KubernetesMachine) (log : Log) (r : Result Pod)
    → Follows k (reset_answer p k log r).object
unfolding reset_answer
Follows-reset_answer p k log (ok pod) = elim (Bool-cases (is_controlled_by p pod.meta k.meta)) [
  | inl c ↦ rw c (reset (kubeadm_reset p log pod))
  | inr c ↦ rw c (Follows-remove_machine_finalizer p k)
]
  where
    reset : (a : Option Error × Log) → Follows k (after_reset p k a).object
    reset (none, log') = Follows-remove_machine_finalizer p k
    reset (some e, log') = Follows-refl k
Follows-reset_answer p k log (err e) = elim (Bool-cases (is_not_found e)) [
  | inl c ↦ rw c (
      Follows-trans k (remove_machine_finalizer p k) _ (Follows-remove_machine_finalizer p k)
        (Follows-fail_machine "Machine Pod cannot be found" (remove_machine_finalizer p k)))
  | inr c ↦ rw c (Follows-refl k)
]

Follows-reconcile_delete :
    (p : Platform) (machine : Machine) (k : KubernetesMachine) (cluster : Cluster) (log : Log)
    → Follows k (reconcile_delete p machine k cluster log).object
unfolding reconcile_delete
Follows-reconcile_delete p machine k cluster log =
    elim (Bool-cases
      (not (is_some cluster.meta.deletion_timestamp) && p.is_control_plane_machine machine)) [
        | inl c ↦ rw c (Follows-reset_answer p k _ _)
        | inr c ↦ rw c (Follows-remove_machine_finalizer p k)
      ]

Follows-dispatch :
    (p : Platform) (machine : Machine) (cluster : Cluster) (k : KubernetesMachine) (log : Log)
    → Follows k (dispatch p machine cluster k log).object
unfolding dispatch
Follows-dispatch p machine cluster k log = elim (Bool-cases (p.is_paused cluster k.meta)) [
  | inl c ↦ rw c (Follows-refl k)
  | inr c ↦ rw c (elim (Bool-cases (is_some k.meta.deletion_timestamp)) [
    | inl d ↦ rw d (Follows-reconcile_delete p machine k cluster log)
    | inr d ↦ rw d (elim (Bool-cases cluster.infrastructure_ready) [
      | inl i ↦ simp i (Follows-reconcile_normal p cluster machine k log)
      | inr i ↦ simp i (Follows-refl k)
    ])
  ])
]

Follows-with_cluster :
    (p : Platform) (machine : Machine) (cluster : Cluster) (k : KubernetesMachine) (log : Log)
    → Follows k (with_cluster p machine cluster k log).object
unfolding with_cluster
Follows-with_cluster p machine cluster k log = elim (Option-cases cluster.infrastructure_ref) [
  | inl n ↦ rw (n, with_cluster) (Follows-refl k)
  | inr (name, n) ↦ rw (n, with_cluster) (answer _ (p.kubernetes_cluster log _))
]
  where
    answer :
        (log' : Log) (r : Result KubernetesCluster)
        → Follows k (with_infrastructure p machine cluster k log' r).object
    answer log' (err e) = Follows-refl k
    answer log' (ok _) = Follows-dispatch p machine cluster k log'

Follows-cluster_answer :
    (p : Platform) (machine : Machine) (k : KubernetesMachine) (log : Log)
    (r : Result (Option Cluster))
    → Follows k (cluster_answer p machine k log r).object
unfolding cluster_answer
Follows-cluster_answer p machine k log (err e) = Follows-refl k
Follows-cluster_answer p machine k log (ok none) = Follows-refl k
Follows-cluster_answer p machine k log (ok (some cluster)) =
    Follows-with_cluster p machine cluster k log

Follows-machine_answer :
    (p : Platform) (k : KubernetesMachine) (log : Log) (r : Result (Option Machine))
    → Follows k (machine_answer p k log r).object
unfolding machine_answer
Follows-machine_answer p k log (err e) = Follows-refl k
Follows-machine_answer p k log (ok none) = Follows-refl k
Follows-machine_answer p k log (ok (some machine)) =
    Follows-trans k (reconcile_version k machine) _ (Follows-reconcile_version k machine)
      (Follows-cluster_answer p machine (reconcile_version k machine) _ _)

-- The machine that a reconciliation patches, whatever the platform answers.
unfoldable pub reconciled : Platform → Log → KubernetesMachine → KubernetesMachine
reconciled p log k = (patch_deferred p (reconcile_body p k log)).object

-- What a reconciliation patches follows what it read, whatever the platform answers: of the
-- specification at most the provider ID differs, and only where it was not set; of the metadata at
-- most the finalizers; a failure stays, and a failed machine that was not ready is not made ready.
pub reconciled-Follows :
    (p : Platform) (log : Log) (k : KubernetesMachine) → Follows k (reconciled p log k)
unfolding reconciled patch_deferred reconcile_body
reconciled-Follows p log k =
    Follows-trans k (machine_answer p k _ _).object _ (Follows-machine_answer p k _ _)
      (Follows-reconcile_phase _)

-- One step of a KubernetesMachine's life: a reconciliation on any platform, after any calls, or an
-- edit by somebody else, who leaves the status and the provider ID alone.
pub data Step (k k' : KubernetesMachine) : Type 0 where
  reconciliation : (p : Platform) (log : Log) → k' ≡ reconciled p log k → Step k k'
  edit : k'.status ≡ k.status → k'.spec.provider_id ≡ k.spec.provider_id → Step k k'

pub data Reach (k : KubernetesMachine) : KubernetesMachine → Type 0 where
  here : Reach k k
  next : {j l : KubernetesMachine} → Reach k j → Step j l → Reach k l

-- A provider ID that is set is the same after any number of steps, each a reconciliation on some
-- platform or an edit that leaves the status and the provider ID alone.
pub Reach-provider_id :
    (k : KubernetesMachine) {k' : KubernetesMachine}
    → is_some k.spec.provider_id ≡ true
    → Reach k k'
    → k'.spec.provider_id ≡ k.spec.provider_id
Reach-provider_id k h here = refl
Reach-provider_id k h (next {j = j} r (reconciliation p log e)) =
    let ih = Reach-provider_id k h r in
    rw e (cc (ih, (reconciled-Follows p log j).provider_id_kept (rw ih h)))
Reach-provider_id k h (next r (edit s e)) = cc (e, Reach-provider_id k h r)

has_failed-status :
    (j l : KubernetesMachine) → l.status ≡ j.status → has_failed j ≡ true → has_failed l ≡ true
unfolding has_failed
has_failed-status j l s f = rw s f

-- A machine that has failed and is not ready is still both after any number of steps, each a
-- reconciliation on some platform or an edit that leaves the status and the provider ID alone.
pub Reach-failed :
    (k : KubernetesMachine) {k' : KubernetesMachine}
    → has_failed k ≡ true
    → k.status.ready ≡ false
    → Reach k k'
    → (has_failed k' ≡ true) × (k'.status.ready ≡ false)
Reach-failed k f r here = (f, r)
Reach-failed k f r (next {j = j} rs (reconciliation p log e)) =
    let (f', r') = Reach-failed k f r rs in
    let fol = reconciled-Follows p log j in rw e (fol.failure_kept f', fol.failed_not_readied f' r')
Reach-failed k f r (next {j = j} rs (edit s e)) =
    let (f', r') = Reach-failed k f r rs in (has_failed-status j _ s f', rw s r')
