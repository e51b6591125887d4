-- ===== src/Controllers/Machine/Returns.antt =====
-- `reconcileNormal` returns, or the script for its bootstrap data makes it panic.
pub mod Total
use cluster_api_provider_kub.Prelude.{
  sym, ap, Bool, not, true, false, ◌⊎◌, if◌then◌else◌, ◌≡◌, refl, arith, ◌∷◌, Option, none, some,
  inl, inr, Option-cases, is_some,
}
use cluster_api_provider_kub.Go.{Outcome, done, fail, panic, Result, ok, err, Error, Result-cases}
use cluster_api_provider_kub.Go.Text.{Bytes}
use cluster_api_provider_kub.Go.Base64.{decode}
use cluster_api_provider_kub.Kube.{Cluster, Machine, Pod, ContainerStatus, Secret}
use cluster_api_provider_kub.Api.V1alpha3.{KubernetesMachine}
use cluster_api_provider_kub.CloudInit.Panics.{HasEmptyCommand, panics, panics-generate_script}
use cluster_api_provider_kub.CloudInit.Actions.{generate_script}
use cluster_api_provider_kub.Platform.{Platform, Log, get_pod, create_secret}
use cluster_api_provider_kub.Utils.PodStatus.{get_container_status}
use cluster_api_provider_kub.Utils.Exec.{kind_container_name}
use cluster_api_provider_kub.Controllers.Common.{Run, panicked, Exit, returned}
use cluster_api_provider_kub.Controllers.Machine.Bootstrap.{
  script_secret, generate_cloud_init_secret, owned_secret, get_bootstrap_data, unowned_secret,
}
use cluster_api_provider_kub.Controllers.Machine.Normal.{
  has_failed, is_controlled_by, with_secret, after_node, secret_answer, with_status,
  check_container, after_bootstrap, container_terminated, mark_ready, with_claims, with_answer,
  check_secret, with_pod, reconcile_normal, with_bootstrap_data, own_pod, get_or_create_pod,
  pod_missing, add_finalizers, provided_pod, missing_fixed, set_node_provider_id, pod_key,
  pod_deleting, set_ready, enable_bootstrap_process, provision,
}
use cluster_api_provider_kub.Controllers.Machine.MachinePod.{
  create_machine_pod, create_built, machine_pod,
}
use cluster_api_provider_kub.Controllers.Machine.Names.{machine_kind}
use cluster_api_provider_kub.Controllers.Machine.Claims.{create_persistent_volume_claims}

abbrev pub is_returned : Exit → Bool
is_returned (returned _ _) = true
is_returned panicked = false

-- The last of some calls is that of `getBootstrapData`, and the value that it reads has an empty
-- command.
pub record EmptyCommandRead (p : Platform) (machine : Machine) (calls : Log) : Type 0 where
  pub log : Log
  pub text : Bytes
  pub config : Bytes
  pub last : calls ≡ (get_bootstrap_data p machine log).1
  pub read : (get_bootstrap_data p machine log).0 ≡ ok text
  pub decoded : decode text ≡ some config
  pub command : HasEmptyCommand p.parsers config

-- A run that returns, or else `C` of its calls.
pub data Returns (C : Log → Type 0) (r : Run KubernetesMachine) : Type 0 where
  returns : is_returned r.exit ≡ true → Returns C r
  culprit : C r.log → Returns C r

pub Returns-weaken :
    {A C : Log → Type 0} (r : Run KubernetesMachine)
    → ((l : Log) → A l → C l)
    → Returns A r
    → Returns C r
Returns-weaken r f (returns h) = returns h
Returns-weaken r f (culprit a) = culprit (f r.log a)

module _ {C : Log → Type 0} where
  pub Returns-if :
      (b : Bool) (x y : Run KubernetesMachine)
      → Returns C x
      → Returns C y
      → Returns C (if b then x else y)
  Returns-if true x y hx hy = hx
  Returns-if false x y hx hy = hy

module _ (p : Platform) where
  after_node_returns :
      (k : KubernetesMachine) (pod : Pod) (r : Option Error × Log)
      → is_returned (after_node p k pod r).exit ≡ true
  unfolding after_node mark_ready
  after_node_returns k pod (none, log) = ground arith
  after_node_returns k pod (some e, log) = refl

  after_bootstrap_returns :
      (cluster : Cluster) (k : KubernetesMachine) (pod : Pod) (cs : ContainerStatus)
      (r : Option Error × Log)
      → is_returned (after_bootstrap p cluster k pod cs r).exit ≡ true
  unfolding after_bootstrap
  after_bootstrap_returns cluster k pod cs (none, log) =
      ground (arith, after_node_returns k pod (set_node_provider_id p log cluster pod))
  after_bootstrap_returns cluster k pod cs (some e, log) = refl

  with_status_returns :
      (cluster : Cluster) (k : KubernetesMachine) (log : Log) (pod : Pod) (cs : ContainerStatus)
      → is_returned (with_status p cluster k log pod cs).exit ≡ true
  unfolding with_status container_terminated
  with_status_returns cluster k log pod cs =
      ground (arith, after_bootstrap_returns cluster k pod cs (enable_bootstrap_process p log pod))

  check_container_returns :
      (cluster : Cluster) (k : KubernetesMachine) (log : Log) (pod : Pod)
      → is_returned (check_container p cluster k log pod).exit ≡ true
  unfolding check_container
  check_container_returns cluster k log pod =
      elim (Option-cases (get_container_status pod.status.container_statuses kind_container_name)) [
        | inl q ↦ rw (q, check_container) refl
        | inr (cs, q) ↦ rw (q, check_container) (with_status_returns cluster k log pod cs)
      ]

  secret_answer_returns :
      (cluster : Cluster) (k : KubernetesMachine) (log : Log) (pod : Pod)
      (r : Secret × Option Error)
      → is_returned (secret_answer p cluster k log pod r).exit ≡ true
  unfolding secret_answer check_secret
  secret_answer_returns cluster k log pod (s, none) =
      ground (arith, check_container_returns cluster k log pod)
  secret_answer_returns cluster k log pod (s, some e) =
      ground (arith, check_container_returns cluster k log pod)

  module _ (cluster : Cluster) (machine : Machine) where
    abbrev Empty : Log → Type 0
    Empty = EmptyCommandRead p machine

    with_secret-Returns :
        (k : KubernetesMachine) (log : Log) (pod : Pod) (o : Outcome Secret)
        → (panics o ≡ false) ⊎ Empty log
        → Returns Empty (with_secret p cluster k log pod o)
    unfolding with_secret
    with_secret-Returns k log pod (done s) h =
        returns
          (secret_answer_returns cluster k (create_secret s ∷ log) pod (p.secret_created log s))
    with_secret-Returns k log pod (fail e) h = returns refl
    with_secret-Returns k log pod panic (inl h) = absurd (cc h)
    with_secret-Returns k log pod panic (inr c) = culprit c

    panics-script_secret :
        {C : Type 0} (k : KubernetesMachine) (o : Outcome Bytes)
        → (panics o ≡ false) ⊎ C
        → (panics (script_secret p cluster machine k o) ≡ false) ⊎ C
    unfolding script_secret owned_secret
    panics-script_secret k (done script) h =
        inl
          (elim (Result-cases (
            p.set_controller_reference machine_kind k.meta
              (unowned_secret cluster machine k script).meta)) [
                | inl (e, q) ↦ rw (q, script_secret) refl
                | inr (m, q) ↦ rw (q, script_secret) refl
              ])
    panics-script_secret k (fail e) h = inl refl
    panics-script_secret k panic (inl h) = absurd (cc h)
    panics-script_secret k panic (inr c) = inr c

    panics-generate_cloud_init_secret :
        (k : KubernetesMachine) (l : Log) (text : Bytes)
        → (get_bootstrap_data p machine l).0 ≡ ok text
        → (panics (generate_cloud_init_secret p cluster machine k text) ≡ false)
          ⊎ Empty (get_bootstrap_data p machine l).1
    unfolding generate_cloud_init_secret
    panics-generate_cloud_init_secret k l text read' = elim (Option-cases (decode text)) [
      | inl q ↦ rw (q, generate_cloud_init_secret) (inl refl)
      | inr (config', q) ↦
          rw (q, generate_cloud_init_secret)
            (panics-script_secret k (generate_script p.parsers config')
              (elim (panics-generate_script p.parsers config') [
                | inl h ↦ inl h
                | inr c ↦ inr (record {
                  log = l;
                  last = refl;
                  text = text;
                  config = config';
                  read = read';
                  decoded = q;
                  command = c;
                })
              ]))
    ]

    with_bootstrap_data-Returns :
        (k : KubernetesMachine) (pod : Pod) (l : Log) (r : Result Bytes × Log)
        → get_bootstrap_data p machine l ≡ r
        → Returns Empty (with_bootstrap_data p cluster machine k pod r)
    unfolding with_bootstrap_data
    with_bootstrap_data-Returns k pod l (err e, l') q = returns refl
    with_bootstrap_data-Returns k pod l (ok text, l') q =
        let same = ap (λ (r : Result Bytes × Log). r.1) q in
        rw (sym same) (
          with_secret-Returns k (get_bootstrap_data p machine l).1 pod
            (generate_cloud_init_secret p cluster machine k text)
            (panics-generate_cloud_init_secret k l text (ap (λ (r : Result Bytes × Log). r.0) q)))

    with_claims-Returns :
        (k : KubernetesMachine) (pod : Pod) (r : Option Error × Log)
        → Returns Empty (with_claims p cluster machine k pod r)
    unfolding with_claims
    with_claims-Returns k pod (some e, log) = returns refl
    with_claims-Returns k pod (none, log) =
        with_bootstrap_data-Returns k pod log (get_bootstrap_data p machine log) refl

    with_pod-Returns :
        (k : KubernetesMachine) (log : Log) (pod : Pod)
        → Returns Empty (with_pod p cluster machine k log pod)
    unfolding with_pod own_pod provided_pod pod_deleting provision
    with_pod-Returns k log pod =
        Returns-if (not (is_controlled_by p pod.meta k.meta)) _ _ (returns refl) (
          Returns-if (not (is_some k.spec.provider_id)) _ _ (returns refl) (
            Returns-if (is_some pod.meta.deletion_timestamp) _ _
              (Returns-if k.spec.allow_recreation _ _ (returns refl) (returns refl))
              (with_claims-Returns k pod (create_persistent_volume_claims p k log))))

    create_machine_pod_returns :
        (k : KubernetesMachine) (log : Log)
        → is_returned (create_machine_pod p cluster machine k log).exit ≡ true
    unfolding create_machine_pod create_built
    create_machine_pod_returns k log = elim (Result-cases (machine_pod p cluster machine k)) [
      | inl (e, q) ↦ rw (q, create_built) refl
      | inr (pod, q) ↦ rw (q, create_built) refl
    ]

    with_answer-Returns :
        (k : KubernetesMachine) (log : Log) (r : Result Pod)
        → Returns Empty (with_answer p cluster machine k log r)
    unfolding with_answer pod_missing missing_fixed
    with_answer-Returns k log (ok pod) = with_pod-Returns k log pod
    with_answer-Returns k log (err e) = returns (
        ground (
          arith,
          create_machine_pod_returns k log,
          create_machine_pod_returns (set_ready false k) log,
        ))

    pub reconcile_normal-Returns :
        (k : KubernetesMachine) (log : Log)
        → Returns Empty (reconcile_normal p cluster machine k log)
    unfolding reconcile_normal get_or_create_pod
    reconcile_normal-Returns k log = Returns-if (has_failed k) _ _ (returns refl) (
        Returns-if (not (is_some machine.data_secret_name)) _ _ (returns refl) (
          with_answer-Returns (add_finalizers p k)
            (get_pod (pod_key p machine (add_finalizers p k)) ∷ log)
            (p.pod log (pod_key p machine (add_finalizers p k)))))
