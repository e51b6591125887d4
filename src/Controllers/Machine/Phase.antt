-- ===== src/Controllers/Machine/Phase.antt =====
-- The phase of a KubernetesMachine against an independent reading of it.
use cluster_api_provider_kub.Prelude.{
  none, true, false, ◌≡◌, refl, arith, inl, inr, is_some, ◌≢◌, ◌⊎◌, Option-cases, Bool-cases,
}
use cluster_api_provider_kub.Api.V1alpha3.{KubernetesMachine, KubernetesMachinePhase}
use cluster_api_provider_kub.Controllers.Machine.Normal.{has_failed}
use cluster_api_provider_kub.Controllers.Machine.Reconcile.{reconcile_phase, next_phase}

-- What api/v1alpha3's comments on the phases say, the stronger condition first: a deleted machine is
-- Deleting, another that failed is Failed, another with a provider ID is Running if it is ready and
-- Provisioning if not, and any other keeps its phase or is Pending.
pub data HasPhase (k : KubernetesMachine) (phase : KubernetesMachinePhase) : Type 0 where
  is_deleting :
      is_some k.meta.deletion_timestamp ≡ true
      → phase ≡ KubernetesMachinePhase.deleting
      → HasPhase k phase
  is_failed :
      k.meta.deletion_timestamp ≡ none
      → has_failed k ≡ true
      → phase ≡ KubernetesMachinePhase.failed
      → HasPhase k phase
  is_running :
      k.meta.deletion_timestamp ≡ none
      → has_failed k ≡ false
      → is_some k.spec.provider_id ≡ true
      → k.status.ready ≡ true
      → phase ≡ KubernetesMachinePhase.running
      → HasPhase k phase
  is_provisioning :
      k.meta.deletion_timestamp ≡ none
      → has_failed k ≡ false
      → is_some k.spec.provider_id ≡ true
      → k.status.ready ≡ false
      → phase ≡ KubernetesMachinePhase.provisioning
      → HasPhase k phase
  is_pending :
      k.meta.deletion_timestamp ≡ none
      → has_failed k ≡ false
      → k.spec.provider_id ≡ none
      → k.status.phase ≡ KubernetesMachinePhase.unset
      → phase ≡ KubernetesMachinePhase.pending
      → HasPhase k phase
  is_kept :
      k.meta.deletion_timestamp ≡ none
      → has_failed k ≡ false
      → k.spec.provider_id ≡ none
      → k.status.phase ≢ KubernetesMachinePhase.unset
      → phase ≡ k.status.phase
      → HasPhase k phase

is_unset :
    (phase : KubernetesMachinePhase)
    → (phase ≡ KubernetesMachinePhase.unset) ⊎ (phase ≢ KubernetesMachinePhase.unset)
is_unset KubernetesMachinePhase.unset = inl refl
is_unset _ = inr (λ e. cc e)

module _ (k : KubernetesMachine) (kept : k.meta.deletion_timestamp ≡ none) where
  HasPhase-not_failed : has_failed k ≡ false → HasPhase k (next_phase k)
  unfolding next_phase
  HasPhase-not_failed f = elim (Option-cases k.spec.provider_id) [
    | inl n ↦ elim (is_unset k.status.phase) [
      | inl u ↦ is_pending kept f n u (ground arith)
      | inr u ↦ is_kept kept f n u (ground arith)
    ]
    | inr (v, e) ↦ elim (Bool-cases k.status.ready) [
      | inl r ↦ is_running kept f (ground arith) r (ground arith)
      | inr r ↦ is_provisioning kept f (ground arith) r (ground arith)
    ]
  ]

next_phase-HasPhase : (k : KubernetesMachine) → HasPhase k (next_phase k)
unfolding next_phase
next_phase-HasPhase k = elim (Option-cases k.meta.deletion_timestamp) [
  | inr (t, e) ↦ is_deleting (ground arith) (ground arith)
  | inl e ↦ elim (Bool-cases (has_failed k)) [
    | inl f ↦ is_failed e f (ground arith)
    | inr f ↦ HasPhase-not_failed k e f
  ]
]

-- After `reconcilePhase` a machine that is being deleted is Deleting; else a failed one is Failed;
-- else one with a provider ID is Running if it is ready and Provisioning if not; else it keeps its
-- phase, or is Pending where it had none. Nothing but the phase is changed, and a second
-- `reconcilePhase` changes nothing.
pub reconcile_phase-HasPhase :
    (k : KubernetesMachine)
    → HasPhase k (reconcile_phase k).status.phase
      × (reconcile_phase k
          ≡ record k { status = record (k.status) { phase = (reconcile_phase k).status.phase } })
      × (reconcile_phase (reconcile_phase k) ≡ reconcile_phase k)
unfolding reconcile_phase has_failed
reconcile_phase-HasPhase k = (next_phase-HasPhase k, refl, ground arith)
