-- ===== src/Controllers/Machine/Convergence/Limit.antt =====
-- The rounds of `reconcileNormal` from a machine without a pod to one that is ready.
use cluster_api_provider_kub.Prelude.{
  zero, if◌then◌else◌, ap, ◌∙◌, Bool, is_some, false, true, none, refl, ◌≡◌, arith, ◌∷◌, ℕ, suc,
}
use cluster_api_provider_kub.Go.{Error, err}
use cluster_api_provider_kub.Kube.{Cluster, Machine}
use cluster_api_provider_kub.Api.V1alpha3.{KubernetesMachineSpec, KubernetesMachine}
use cluster_api_provider_kub.Platform.{get_pod, Platform, Log}
use cluster_api_provider_kub.Platform.Lawful.{FreshLaw, ControllerLaw}
use cluster_api_provider_kub.Controllers.Common.{is_not_found, Run, returned, empty_result}
use cluster_api_provider_kub.Controllers.Machine.Cases.{
  reconcile_normal_data, object-create_machine_pod,
}
use cluster_api_provider_kub.Controllers.Machine.Normal.{
  with_answer, pod_missing, missing_fixed, pod_key, reconcile_normal, set_ready, add_finalizers,
  has_failed, set_provider_id,
}
use cluster_api_provider_kub.Controllers.Machine.Names.{machine_pod_name}
use cluster_api_provider_kub.Controllers.Machine.Secrets.{CreateLaw}
use cluster_api_provider_kub.Controllers.Machine.MachinePod.{create_machine_pod, create_built}
use cluster_api_provider_kub.Controllers.Machine.Convergence.Prepared.{Prepared, Created}
use cluster_api_provider_kub.Controllers.Machine.Convergence.Provisioned.{key_of, Works}
use cluster_api_provider_kub.Controllers.Machine.Calls.Grows.{as_before, Grows-reconcile_normal}
use cluster_api_provider_kub.Controllers.Machine.Convergence.Rounds.{
  round-provides, round-readies, Prepared-same, Created-same,
}
use cluster_api_provider_kub.Controllers.Machine.Convergence.Built.{machine_pod-built}

-- The rounds of `reconcileNormal` on a machine: each goes on with the object and the calls that the
-- one before it left.
unfoldable rounds :
    Platform → Cluster → Machine → KubernetesMachine → Log → ℕ → Run KubernetesMachine
rounds p cluster machine k log zero = reconcile_normal p cluster machine k log
rounds p cluster machine k log (suc n) =
    let before = rounds p cluster machine k log n in
    reconcile_normal p cluster machine before.object before.log

module _ (p : Platform) (works : Works p) (fresh : FreshLaw p) (controller : ControllerLaw p)
    (create : CreateLaw p) (cluster : Cluster) (machine : Machine) where
  -- The machine's pod has been created, and its provider ID is set or is not.
  pub record Underway (provided' : Bool) (k : KubernetesMachine) (log : Log) : Type 0 where
    pub prepared : Prepared p cluster machine k
    pub created : Created p k log
    pub provided : is_some k.spec.provider_id ≡ provided'

  module _ (k : KubernetesMachine) (log : Log) where
    abbrev next_round : Run KubernetesMachine
    next_round = reconcile_normal p cluster machine k log

    -- Creating the pod of a machine that has none.
    create_machine_pod-Underway :
        (l : Log) (e : Error)
        → p.pod l (pod_key p machine k) ≡ err e
        → is_not_found e ≡ true
        → Prepared p cluster machine k
        → k.spec.provider_id ≡ none
        → Underway false k
            (create_machine_pod p cluster machine k (get_pod (pod_key p machine k) ∷ l)).log
    unfolding create_machine_pod create_built pod_key machine_pod_name
    create_machine_pod-Underway l e gone q prepared n =
        let (pod, built, name, ns, undeleted, controlled) =
          machine_pod-built p fresh k cluster machine controller create prepared.unowned_templates
            prepared.cluster_namespace in
        let key : key_of pod ≡ pod_key p machine k =
          rw (name, ns, prepared.machine_namespace) refl in
        record {
          prepared = prepared;
          created = record {
            pod = pod;
            before = l;
            error = e;
            missing = rw key gone;
            not_there = q;
            in_log = rw (built, create_built, key) as_before;
            same_name = name;
            same_namespace = ns;
            undeleted = undeleted;
            controlled = controlled;
          };
          provided = rw n refl;
        }

    pub round-provided : Underway false k log → Underway true next_round.object next_round.log
    unfolding set_provider_id add_finalizers has_failed
    round-provided u =
        let (pod, e) =
          round-provides p works fresh controller create cluster machine k log u.prepared u.created
            (ground (arith, u.provided)) in
        let grows = λ (l0 : Log). Grows-reconcile_normal p k l0 cluster machine log in
        rw e (record {
          prepared =
              Prepared-same p works fresh controller create cluster machine k
                (set_provider_id p (add_finalizers p k) pod) refl refl
                (unfold has_failed in u.prepared.sound) u.prepared;
          created =
              Created-same p works fresh controller create cluster machine k
                (set_provider_id p (add_finalizers p k) pod) log _ refl refl refl grows u.created;
          provided = refl;
        })

    pub round-ready :
        Underway true k log
        → Underway true next_round.object next_round.log
          × (next_round.object.status.ready ≡ true)
          × (next_round.exit ≡ returned empty_result none)
    unfolding set_ready add_finalizers has_failed
    round-ready u =
        let marks =
          round-readies p works fresh controller create cluster machine k log u.prepared u.created
            u.provided in
        let grows = λ (l0 : Log). Grows-reconcile_normal p k l0 cluster machine log in
        rw marks.marked (
          record {
            prepared =
                Prepared-same p works fresh controller create cluster machine k
                  (set_ready true (add_finalizers p k)) refl refl
                  (unfold has_failed in u.prepared.sound) u.prepared;
            created =
                Created-same p works fresh controller create cluster machine k
                  (set_ready true (add_finalizers p k)) log _ refl refl refl grows u.created;
            provided = u.provided;
          },
          refl,
          marks.returns,
        )

  Underway-if :
      (b : Bool) (x y : Run KubernetesMachine)
      → (b ≡ true → Underway false x.object x.log)
      → (b ≡ false → Underway false y.object y.log)
      → Underway false (if b then x else y).object (if b then x else y).log
  Underway-if true x y hx hy = hx refl
  Underway-if false x y hx hy = hy refl

  module _ (k : KubernetesMachine) (log : Log) (e : Error)
      (gone : p.pod log (pod_key p machine k) ≡ err e) (q : is_not_found e ≡ true)
      (prepared : Prepared p cluster machine k) (unset : k.spec.provider_id ≡ none) where
    abbrev created_run : KubernetesMachine → Run KubernetesMachine
    created_run k' = create_machine_pod p cluster machine k' (get_pod (pod_key p machine k) ∷ log)

    started_from :
        (k' : KubernetesMachine)
        → k'.meta.name ≡ k.meta.name
        → k'.meta.namespace ≡ k.meta.namespace
        → k'.spec ≡ k.spec
        → has_failed k' ≡ false
        → Underway false (created_run k').object (created_run k').log
    unfolding pod_key machine_pod_name
    started_from k' name ns spec f =
        let same : pod_key p machine k' ≡ pod_key p machine k = rw name refl in
        let ready =
          Prepared-same p works fresh controller create cluster machine k k' ns
            (ap (λ (t : KubernetesMachineSpec). t.volume_claim_templates) spec) f prepared in
        rw (object-create_machine_pod p cluster machine k' (get_pod (pod_key p machine k) ∷ log)) (
          rw same at (
            create_machine_pod-Underway k' log log e (rw same gone) q ready
              (ap (λ (t : KubernetesMachineSpec). t.provider_id) spec ∙ unset)))

    -- The first round creates the pod.
    pub round-started : Underway false (next_round k log).object (next_round k log).log
    unfolding with_answer pod_missing missing_fixed add_finalizers set_ready has_failed pod_key
        machine_pod_name
    round-started =
        let sound : has_failed (add_finalizers p k) ≡ false = prepared.sound in
        rw (reconcile_normal_data p cluster machine k log prepared.sound (rw prepared.named refl)) (
          rw (gone, with_answer, q)
            (Underway-if k.spec.allow_recreation _ _
              (λ _. started_from (set_ready false (add_finalizers p k)) refl refl refl sound)
              λ _.
                Underway-if (is_some k.spec.provider_id) _ _
                  (λ s. absurd (cc (s, ap is_some unset)))
                  (λ _. started_from (add_finalizers p k) refl refl refl sound)))

    -- The rounds after it find the pod, and from the third on the provider ID too.
    rounds-Underway :
        (n : ℕ)
        → Underway true
            (rounds p cluster machine k log (suc n)).object
            (rounds p cluster machine k log (suc n)).log
    unfolding rounds
    rounds-Underway zero = round-provided _ _ round-started
    rounds-Underway (suc n) = (round-ready _ _ (rounds-Underway n)).0

-- On a platform that works and whose helpers keep their laws, where a created pod runs as soon as it is
-- looked up: repeated rounds of `reconcileNormal` on a machine that has not failed, has no provider ID
-- and no pod yet, whose templates have no owner, which is in one namespace with its Cluster and its
-- Machine, and whose bootstrap data is there and gives a script, leave it ready from the third round
-- on, and from then on return no error and no time to come back at.
rounds-ready :
    (p : Platform) (works : Works p) (fresh : FreshLaw p) (controller : ControllerLaw p)
    (create : CreateLaw p) (cluster : Cluster) (machine : Machine) (k : KubernetesMachine)
    (log : Log) (e : Error) (n : ℕ)
    → Prepared p cluster machine k
    → k.spec.provider_id ≡ none
    → p.pod log (pod_key p machine k) ≡ err e
    → is_not_found e ≡ true
    → ((rounds p cluster machine k log (suc (suc n))).object.status.ready ≡ true)
      × ((rounds p cluster machine k log (suc (suc n))).exit ≡ returned empty_result none)
unfolding rounds
rounds-ready p works fresh controller create cluster machine k log e n prepared unset gone q =
    let there =
      rounds-Underway p works fresh controller create cluster machine k log e gone q prepared unset
        n in
    let (_, is_ready, returns) =
      round-ready p works fresh controller create cluster machine _ _ there in
    (is_ready, returns)
