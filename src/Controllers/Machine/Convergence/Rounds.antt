-- ===== src/Controllers/Machine/Convergence/Rounds.antt =====
-- The rounds of `reconcileNormal` on a platform that works.
use cluster_api_provider_kub.Prelude.{
  is_some, refl, true, ◌≡◌, none, false, some, ◌∷◌, ◌∙◌, Option, sym,
}
use cluster_api_provider_kub.Go.{Error, done, ok, Result, err}
use cluster_api_provider_kub.Go.Text.{Bytes}
use cluster_api_provider_kub.Kube.{Secret, Cluster, Machine, Pod}
use cluster_api_provider_kub.Api.V1alpha3.{KubernetesMachine}
use cluster_api_provider_kub.CloudInit.Actions.{generate_script}
use cluster_api_provider_kub.Platform.{get_pod, Platform, Log, create_secret}
use cluster_api_provider_kub.Platform.Lawful.{FreshLaw, ControllerLaw}
use cluster_api_provider_kub.Controllers.Machine.Cases.{reconcile_normal_data}
use cluster_api_provider_kub.Controllers.Machine.Secrets.{
  CreateLaw, secret_answer-passes, get_bootstrap_data-generate,
}
use cluster_api_provider_kub.Controllers.Machine.Normal.{
  with_answer, with_pod, own_pod, add_finalizers, provided_pod, pod_key, reconcile_normal,
  set_provider_id, with_bootstrap_data, with_claims, with_secret, provision, is_controlled_by,
  has_failed, secret_answer,
}
use cluster_api_provider_kub.Controllers.Machine.Bootstrap.{
  script_secret, owned_secret, unowned_secret, generate_cloud_init_secret,
}
use cluster_api_provider_kub.Controllers.Machine.Names.{machine_kind, machine_pod_name}
use cluster_api_provider_kub.Controllers.Machine.Claims.{create_persistent_volume_claims}
use cluster_api_provider_kub.Controllers.Machine.Convergence.Prepared.{Prepared, Created}
use cluster_api_provider_kub.Controllers.Machine.Calls.Grows.{Grows}
use cluster_api_provider_kub.Controllers.Machine.Convergence.Built.{get_persistent_volume_claims_ok}
use cluster_api_provider_kub.Controllers.Machine.Convergence.Provisioned.{
  Works, IsLive, MarksReady, check_container_ready, create_persistent_volume_claims_ok,
}

module _ (p : Platform) (works : Works p) (fresh : FreshLaw p) (controller : ControllerLaw p)
    (create : CreateLaw p) (cluster : Cluster) (machine : Machine) where
  module _ (k : KubernetesMachine) (prepared : Prepared p cluster machine k) where
    -- The Secret with the scripts can be built.
    script_secret_ok :
        (s : Secret) × (script_secret p cluster machine k (generate_script p.parsers prepared.value)
          ≡ done s)
    unfolding script_secret owned_secret unowned_secret
    script_secret_ok =
        let bare = unowned_secret cluster machine k prepared.script in
        let (owned, q) =
          fresh.set_fresh machine_kind k.meta bare.meta refl prepared.machine_namespace in
        (record bare { meta = owned }, rw (prepared.scripted, script_secret, q) refl)

    provision_ready :
        (log : Log) (pod : Pod)
        → IsLive pod
        → MarksReady p works k (provision p cluster machine k log pod)
    unfolding provision
    provision_ready log pod live =
        let (claims, c) = get_persistent_volume_claims_ok p fresh k prepared.unowned_templates in
        with_claims_ready (create_persistent_volume_claims p k log)
          (create_persistent_volume_claims_ok p works k log claims c)
      where
        with_secret_ready :
            (l : Log) (text : Bytes) (s : Secret)
            → generate_cloud_init_secret p cluster machine k text ≡ done s
            → MarksReady p works k
                (secret_answer p cluster k (create_secret s ∷ l) pod (p.secret_created l s))
        with_secret_ready l text s made =
            rw
              (secret_answer-passes p controller create cluster machine k l pod text s made
                (works.secrets_created l s))
              (check_container_ready p works cluster k pod live (create_secret s ∷ l))

        with_bootstrap_data_ready :
            (text : Bytes) (r : Result Bytes × Log)
            → r.0 ≡ ok text
            → generate_cloud_init_secret p cluster machine k text
              ≡ script_secret p cluster machine k (generate_script p.parsers prepared.value)
            → MarksReady p works k (with_bootstrap_data p cluster machine k pod r)
        with_bootstrap_data_ready text (err e, l) q g = absurd (cc q)
        with_bootstrap_data_ready text (ok t, l) q g =
            let (s, made) = script_secret_ok in
            let same : t ≡ text = cc q in
            rw (same, with_bootstrap_data, g ∙ made, with_secret)
              (with_secret_ready l text s (g ∙ made))

        with_claims_ready :
            (r : Option Error × Log)
            → r.0 ≡ none
            → MarksReady p works k (with_claims p cluster machine k pod r)
        with_claims_ready (some e, l) q = absurd (cc q)
        with_claims_ready (none, l) q =
            let (text, d, g) =
              get_bootstrap_data-generate p cluster machine k l prepared.secret_name prepared.secret
                prepared.value prepared.named (prepared.secret_found l) prepared.valued
                prepared.bytes in
            with_bootstrap_data_ready text _ d g

  pub Prepared-same :
      (k k' : KubernetesMachine)
      → k'.meta.namespace ≡ k.meta.namespace
      → k'.spec.volume_claim_templates ≡ k.spec.volume_claim_templates
      → has_failed k' ≡ false
      → Prepared p cluster machine k
      → Prepared p cluster machine k'
  Prepared-same k k' n t f q = record {
    cluster_namespace = q.cluster_namespace ∙ sym n;
    machine_namespace = q.machine_namespace ∙ sym n;
    unowned_templates = rw t q.unowned_templates;
    sound = f;
    secret_name = q.secret_name;
    named = q.named;
    secret = q.secret;
    secret_found = q.secret_found;
    value = q.value;
    valued = q.valued;
    bytes = q.bytes;
    script = q.script;
    scripted = q.scripted;
  }

  pub Created-same :
      (k k' : KubernetesMachine) (log log' : Log)
      → k'.meta.name ≡ k.meta.name
      → k'.meta.namespace ≡ k.meta.namespace
      → k'.meta.uid ≡ k.meta.uid
      → ((l0 : Log) → Grows l0 log → Grows l0 log')
      → Created p k log
      → Created p k' log'
  unfolding is_controlled_by
  Created-same k k' log log' n ns u grows c = record {
    pod = c.pod;
    before = c.before;
    error = c.error;
    missing = c.missing;
    not_there = c.not_there;
    in_log = grows _ c.in_log;
    same_name = c.same_name ∙ sym n;
    same_namespace = c.same_namespace ∙ sym ns;
    undeleted = c.undeleted;
    controlled = rw u c.controlled;
  }

  -- The pod that has been created, as it is found.
  pub record Found (k : KubernetesMachine) (log : Log) : Type 0 where
    pub pod : Pod
    pub found : p.pod log (pod_key p machine k) ≡ ok pod
    pub controlled : is_controlled_by p pod.meta k.meta ≡ true
    pub undeleted : pod.meta.deletion_timestamp ≡ none
    pub live : IsLive pod

  module _ (k : KubernetesMachine) (log : Log) (prepared : Prepared p cluster machine k)
      (created : Created p k log) where
    Created-Found : Found k log
    unfolding pod_key machine_pod_name is_controlled_by
    Created-Found =
        let (live, q, refs, d, l) =
          works.pods_started created.before log created.pod created.error created.missing
            created.not_there created.in_log in
        record {
          pod = live;
          found =
              rw (created.same_name, created.same_namespace, sym prepared.machine_namespace) at q;
          controlled =
              rw (create.controller_of_references live.meta created.pod.meta refs, is_controlled_by)
                created.controlled;
          undeleted = d ∙ created.undeleted;
          live = l;
        }

    -- A round of a machine whose pod has been created goes on with that pod.
    reconcile_normal-own_pod :
        (found : Found k log)
        → reconcile_normal p cluster machine k log
          ≡ own_pod p cluster machine
              (add_finalizers p k)
              (get_pod (pod_key p machine k) ∷ log)
              found.pod
    unfolding with_answer with_pod is_controlled_by add_finalizers
    reconcile_normal-own_pod found =
        reconcile_normal_data p cluster machine k log prepared.sound (rw prepared.named refl)
        ∙ rw (found.found, with_answer, found.controlled, with_pod) refl

    -- The first of them records the provider ID, where there is none yet.
    pub round-provides :
        k.spec.provider_id ≡ none
        → (pod : Pod) × ((reconcile_normal p cluster machine k log).object
            ≡ set_provider_id p (add_finalizers p k) pod)
    unfolding own_pod add_finalizers
    round-provides n =
        let found = Created-Found in
        (found.pod, rw (reconcile_normal-own_pod found, own_pod, n) refl)

    -- The next marks the machine ready.
    pub round-readies :
        is_some k.spec.provider_id ≡ true
        → MarksReady p works (add_finalizers p k) (reconcile_normal p cluster machine k log)
    unfolding own_pod provided_pod add_finalizers has_failed
    round-readies n =
        let found = Created-Found in
        let same =
          Prepared-same k (add_finalizers p k) refl refl (unfold has_failed in prepared.sound)
            prepared in
        rw (reconcile_normal-own_pod found, own_pod, n, provided_pod, found.undeleted)
          (provision_ready (add_finalizers p k) same _ found.pod found.live)
