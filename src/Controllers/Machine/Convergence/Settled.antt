-- ===== src/Controllers/Machine/Convergence/Settled.antt =====
-- A machine's runs of `Reconcile` until it runs, and from then on.
use cluster_api_provider_kub.Prelude.{
  ℕ, zero, suc, Bool, is_some, refl, ◌≡◌, ◌∷◌, ◌∙◌, ap, none, true, false, arith,
}
use cluster_api_provider_kub.Go.{ok, Error, err}
use cluster_api_provider_kub.Kube.{ObjectMeta, NamespacedName, Cluster, Machine}
use cluster_api_provider_kub.Api.V1alpha3.{
  KubernetesMachine, KubernetesMachineSpec, KubernetesMachinePhase,
}
use cluster_api_provider_kub.Platform.{Platform, Log, patch_machine, get_kubernetes_machine}
use cluster_api_provider_kub.Controllers.Common.{
  Run, deferred_exit, returned, empty_result, is_not_found,
}
use cluster_api_provider_kub.Controllers.Machine.Normal.{has_failed, pod_key}
use cluster_api_provider_kub.Controllers.Machine.Reconcile.{
  reconcile_version, reconcile, reconcile_phase, next_phase,
}
use cluster_api_provider_kub.Controllers.Machine.Convergence.Rounds.{Prepared-same, Created-same}
use cluster_api_provider_kub.Controllers.Machine.Calls.Grows.{Grows, one_more}
use cluster_api_provider_kub.Controllers.Machine.Convergence.Provisioned.{Works}
use cluster_api_provider_kub.Platform.Lawful.{FreshLaw, ControllerLaw}
use cluster_api_provider_kub.Controllers.Machine.Secrets.{CreateLaw}
use cluster_api_provider_kub.Controllers.Machine.Convergence.Limit.{
  Underway, round-ready, round-provided, round-started,
}
use cluster_api_provider_kub.Controllers.Machine.Convergence.Whole.{
  reconciles, Attached, normal_run, read_calls, reconcile-read,
}
use cluster_api_provider_kub.Controllers.Machine.Convergence.Prepared.{Prepared}
use cluster_api_provider_kub.Controllers.Machine.Names.{machine_pod_name}
use cluster_api_provider_kub.Controllers.Metadata.{Resembles}

-- The machine that is read runs: it is ready and in phase Running, and it has a provider ID.
pub record IsRunning (p : Platform) (req : NamespacedName) (log : Log) : Type 0 where
  pub object : KubernetesMachine
  pub found : p.kubernetes_machine log req ≡ ok object
  pub is_ready : object.status.ready ≡ true
  pub provided : is_some object.spec.provider_id ≡ true
  pub in_phase : object.status.phase ≡ KubernetesMachinePhase.running

module _ (p : Platform) (works : Works p) (fresh : FreshLaw p) (controller : ControllerLaw p)
    (create : CreateLaw p) (req : NamespacedName) (cluster : Cluster) (machine : Machine)
    (k : KubernetesMachine) (attached : Attached p req cluster machine k) where
  -- A machine that is read and is underway.
  record Read (provided' : Bool) (log : Log) : Type 0 where
    object : KubernetesMachine
    like : Resembles k.meta object.meta
    found : p.kubernetes_machine log req ≡ ok object
    underway : Underway p works fresh controller create cluster machine provided' object log

  -- The stages between the reads change only what `Underway` does not look at.
  Underway-same :
      (b : Bool) (k1 k2 : KubernetesMachine) (log1 log2 : Log)
      → Resembles k1.meta k2.meta
      → k2.spec ≡ k1.spec
      → has_failed k2 ≡ has_failed k1
      → ((l : Log) → Grows l log1 → Grows l log2)
      → Underway p works fresh controller create cluster machine b k1 log1
      → Underway p works fresh controller create cluster machine b k2 log2
  Underway-same b k1 k2 log1 log2 like spec failed grows u = record {
    prepared =
        Prepared-same p works fresh controller create cluster machine k1 k2
          (ap (λ (m : ObjectMeta). m.namespace) like)
          (ap (λ (s : KubernetesMachineSpec). s.volume_claim_templates) spec)
          (failed ∙ u.prepared.sound) u.prepared;
    created =
        Created-same p works fresh controller create cluster machine k1 k2 log1 log2
          (ap (λ (m : ObjectMeta). m.name) like) (ap (λ (m : ObjectMeta). m.namespace) like)
          (ap (λ (m : ObjectMeta). m.uid) like) grows u.created;
    provided = ap (λ (s : KubernetesMachineSpec). is_some s.provider_id) spec ∙ u.provided;
  }

  has_failed-reconcile_version :
      (k' : KubernetesMachine) → has_failed (reconcile_version k' machine) ≡ has_failed k'
  unfolding has_failed reconcile_version
  has_failed-reconcile_version k' = refl

  has_failed-reconcile_phase :
      (k' : KubernetesMachine) → has_failed (reconcile_phase k') ≡ has_failed k'
  unfolding has_failed reconcile_phase
  has_failed-reconcile_phase k' = refl

  -- Before `reconcileNormal`.
  Underway-read :
      (b : Bool) (k' : KubernetesMachine) (log : Log)
      → Underway p works fresh controller create cluster machine b k' log
      → Underway p works fresh controller create cluster machine b
          (reconcile_version k' machine)
          (read_calls p req cluster machine k attached k' (get_kubernetes_machine req ∷ log))
  unfolding reconcile_version
  Underway-read b k' log u =
      Underway-same b k' (reconcile_version k' machine) log _ refl refl
        (has_failed-reconcile_version k') (λ l g. one_more (one_more (one_more (one_more g)))) u

  -- After it.
  Underway-patched :
      (b : Bool) (k' : KubernetesMachine) (log : Log)
      → Underway p works fresh controller create cluster machine b k' log
      → Underway p works fresh controller create cluster machine b
          (reconcile_phase k')
          (patch_machine (reconcile_phase k') ∷ log)
  unfolding reconcile_phase
  Underway-patched b k' log u =
      Underway-same b k' (reconcile_phase k') log _ refl refl (has_failed-reconcile_phase k')
        (λ l g. one_more g) u

  abbrev normal_round : KubernetesMachine → Log → Run KubernetesMachine
  normal_round k' log = normal_run p req cluster machine k attached k' log

  -- What is read after a run whose `reconcileNormal` leaves the machine underway.
  Read-step :
      (b : Bool) (k' : KubernetesMachine) (log : Log)
      → Resembles k.meta k'.meta
      → p.kubernetes_machine log req ≡ ok k'
      → Underway p works fresh controller create cluster machine b
          (normal_round k' log).object
          (normal_round k' log).log
      → Read b (reconcile p req log).1
  Read-step b k' log like read u =
      let (calls, _, like', next) =
        reconcile-read p req cluster machine k attached k' log like read in
      record {
        object = reconcile_phase (normal_round k' log).object;
        like = like';
        found = next;
        underway =
            rw calls (Underway-patched b (normal_round k' log).object (normal_round k' log).log u);
      }

  Read-provided : (log : Log) → Read false log → Read true (reconcile p req log).1
  Read-provided log r = Read-step true r.object log r.like r.found (
      round-provided p works fresh controller create cluster machine _ _
        (Underway-read false r.object log r.underway))

  Read-ready : (log : Log) → Read true log → Read true (reconcile p req log).1
  Read-ready log r =
      Read-step true r.object log r.like r.found
        (round-ready p works fresh controller create cluster machine _ _
          (Underway-read true r.object log r.underway)).0

  next_phase-running :
      (k' : KubernetesMachine)
      → k'.meta.deletion_timestamp ≡ none
      → has_failed k' ≡ false
      → is_some k'.spec.provider_id ≡ true
      → k'.status.ready ≡ true
      → next_phase k' ≡ KubernetesMachinePhase.running
  unfolding next_phase
  next_phase-running k' d f v r = ground (arith, d, f, v, r)

  Read-IsRunning :
      (log : Log)
      → Read true log
      → IsRunning p req (reconcile p req log).1
        × ((reconcile p req log).0 ≡ returned empty_result none)
  unfolding reconcile_phase deferred_exit
  Read-IsRunning log r =
      let (calls, exit, like', next) =
        reconcile-read p req cluster machine k attached r.object log r.like r.found in
      let (u, is_ready, returns) =
        round-ready p works fresh controller create cluster machine _ _
          (Underway-read true r.object log r.underway) in
      (
        record {
          object = reconcile_phase (normal_round r.object log).object;
          found = next;
          is_ready = is_ready;
          provided = u.provided;
          in_phase =
              next_phase-running (normal_round r.object log).object
                (ap (λ (m : ObjectMeta). m.deletion_timestamp) like' ∙ attached.undeleted)
                u.prepared.sound u.provided is_ready;
        },
        exit ∙ rw returns refl,
      )

  module _ (log : Log) (e : Error) (read : p.kubernetes_machine log req ≡ ok k)
      (prepared : Prepared p cluster machine k) (unset : k.spec.provider_id ≡ none)
      (gone : p.pod
          (read_calls p req cluster machine k attached k (get_kubernetes_machine req ∷ log))
          (pod_key p machine k)
        ≡ err e)
      (q : is_not_found e ≡ true) where
    Read-started : Read false (reconcile p req log).1
    unfolding reconcile_version pod_key machine_pod_name has_failed
    Read-started = Read-step false k log refl read (
        round-started p works fresh controller create cluster machine (reconcile_version k machine)
          (read_calls p req cluster machine k attached k (get_kubernetes_machine req ∷ log)) e gone
          q
          (Prepared-same p works fresh controller create cluster machine k
            (reconcile_version k machine) refl refl prepared.sound prepared)
          unset)

    reconciles-Read : (n : ℕ) → Read true (reconciles p req log (suc (suc n)))
    unfolding reconciles
    reconciles-Read zero = Read-provided _ Read-started
    reconciles-Read (suc n) = Read-ready _ (reconciles-Read n)

-- On a platform that works and whose helpers keep their laws, where a created pod runs as soon as it is
-- looked up and a patched machine is what is read next: take a machine that is read, has not failed,
-- is not being deleted and has no provider ID, for which no pod is found, whose templates have no
-- owner, which is in one namespace with its Cluster and its Machine, and whose bootstrap data is there
-- and gives a script; its Machine and Cluster are found whenever they are asked for, the Cluster's
-- infrastructure is there and ready, and neither is paused. After three or more runs of `Reconcile`
-- the machine that is read is ready, in phase Running and has its provider ID, and the last of them
-- returned no error and no time to come back at.
pub reconciles-IsRunning :
    (p : Platform) (works : Works p) (fresh : FreshLaw p) (controller : ControllerLaw p)
    (create : CreateLaw p) (req : NamespacedName) (cluster : Cluster) (machine : Machine)
    (k : KubernetesMachine) (attached : Attached p req cluster machine k) (log : Log) (e : Error)
    (n : ℕ)
    → p.kubernetes_machine log req ≡ ok k
    → Prepared p cluster machine k
    → k.spec.provider_id ≡ none
    → p.pod
        (read_calls p req cluster machine k attached k (get_kubernetes_machine req ∷ log))
        (pod_key p machine k)
      ≡ err e
    → is_not_found e ≡ true
    → IsRunning p req (reconciles p req log (suc (suc (suc n))))
      × ((reconcile p req (reconciles p req log (suc (suc n)))).0 ≡ returned empty_result none)
unfolding reconciles
reconciles-IsRunning p works fresh controller create req cluster machine k attached log e n read
      prepared unset gone q =
    Read-IsRunning p works fresh controller create req cluster machine k attached _ (
      reconciles-Read p works fresh controller create req cluster machine k attached log e read
        prepared unset gone q n)
