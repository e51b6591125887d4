-- ===== src/Controllers/Cluster/Phase.antt =====
-- The phase of a KubernetesCluster, case by case.
use cluster_api_provider_kub.Prelude.{
  none, true, false, ◌≡◌, ◌≢◌, ◌⊎◌, refl, arith, inl, inr, is_some, Bool-cases, Option-cases,
}
use cluster_api_provider_kub.Api.V1alpha3.{KubernetesCluster, KubernetesClusterPhase}
use cluster_api_provider_kub.Controllers.Cluster.{has_failed, next_phase, reconcile_phase}

-- The phase that a cluster is to have: what is deleted is Deleting, of the rest what failed is Failed,
-- and what is ready Provisioned.
pub data HasClusterPhase (k : KubernetesCluster) (phase : KubernetesClusterPhase) : Type 0 where
  is_deleting :
      is_some k.meta.deletion_timestamp ≡ true
      → phase ≡ KubernetesClusterPhase.deleting
      → HasClusterPhase k phase
  is_failed :
      k.meta.deletion_timestamp ≡ none
      → has_failed k ≡ true
      → phase ≡ KubernetesClusterPhase.failed
      → HasClusterPhase k phase
  is_provisioned :
      k.meta.deletion_timestamp ≡ none
      → has_failed k ≡ false
      → k.status.ready ≡ true
      → phase ≡ KubernetesClusterPhase.provisioned
      → HasClusterPhase k phase
  is_provisioning :
      k.meta.deletion_timestamp ≡ none
      → has_failed k ≡ false
      → k.status.ready ≡ false
      → k.status.phase ≡ KubernetesClusterPhase.unset
      → phase ≡ KubernetesClusterPhase.provisioning
      → HasClusterPhase k phase
  is_kept :
      k.meta.deletion_timestamp ≡ none
      → has_failed k ≡ false
      → k.status.ready ≡ false
      → k.status.phase ≢ KubernetesClusterPhase.unset
      → phase ≡ k.status.phase
      → HasClusterPhase k phase

no_phase :
    (phase : KubernetesClusterPhase)
    → (phase ≡ KubernetesClusterPhase.unset) ⊎ (phase ≢ KubernetesClusterPhase.unset)
no_phase KubernetesClusterPhase.unset = inl refl
no_phase _ = inr (λ e. cc e)

next_phase-HasClusterPhase : (k : KubernetesCluster) → HasClusterPhase k (next_phase k)
unfolding next_phase
next_phase-HasClusterPhase k = elim (Option-cases k.meta.deletion_timestamp) [
  | inr (t, e) ↦ is_deleting (ground arith) (ground arith)
  | inl e ↦ elim (Bool-cases (has_failed k)) [
    | inl f ↦ is_failed e f (ground arith)
    | inr f ↦ elim (Bool-cases k.status.ready) [
      | inl r ↦ is_provisioned e f r (ground arith)
      | inr r ↦ elim (no_phase k.status.phase) [
        | inl u ↦ is_provisioning e f r u (ground arith)
        | inr u ↦ is_kept e f r u (ground arith)
      ]
    ]
  ]
]

-- After `reconcilePhase` a cluster that is being deleted is Deleting; else a failed one is Failed; else
-- one that is ready is Provisioned; else it keeps its phase, or is Provisioning where it had none.
-- Nothing but the phase is changed, and a second `reconcilePhase` changes nothing.
pub reconcile_phase-HasClusterPhase :
    (k : KubernetesCluster)
    → HasClusterPhase k (reconcile_phase k).status.phase
      × (reconcile_phase k
          ≡ record k { status = record (k.status) { phase = (reconcile_phase k).status.phase } })
      × (reconcile_phase (reconcile_phase k) ≡ reconcile_phase k)
unfolding reconcile_phase has_failed next_phase
reconcile_phase-HasClusterPhase k = (next_phase-HasClusterPhase k, refl, ground arith)
