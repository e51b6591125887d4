-- ===== src/Controllers/Machine/Secrets.antt =====
-- The Secret with the cloud-init scripts.
use cluster_api_provider_kub.Prelude.{
  ◌∷◌, none, some, true, ◌≡◌, refl, arith, inl, inr, Option, ap, ◌⊎◌, sym, ◌∙◌, eq_refl, String,
  All,
}
use cluster_api_provider_kub.Prelude.Maps.{lookup}
use cluster_api_provider_kub.Go.{
  ok, err, done, fail, panic, Outcome, Result, Error, wrapped, message,
}
use cluster_api_provider_kub.Go.Text.{Bytes}
use cluster_api_provider_kub.Go.Base64.{decode, encode}
use cluster_api_provider_kub.Go.Base64.RoundTrip.{decode-encode, IsByte}
use cluster_api_provider_kub.Kube.{Cluster, Secret, ObjectMeta, Machine, Pod}
use cluster_api_provider_kub.Api.V1alpha3.{KubernetesMachine}
use cluster_api_provider_kub.CloudInit.Actions.{generate_script}
use cluster_api_provider_kub.Platform.{Platform, Log, create_secret}
use cluster_api_provider_kub.Platform.Lawful.{ControllerLaw}
use cluster_api_provider_kub.Controllers.Common.{is_already_exists}
use cluster_api_provider_kub.Controllers.Machine.Bootstrap.{
  generate_cloud_init_secret, script_secret, owned_secret, unowned_secret, get_bootstrap_data,
  bootstrap_value, value_of,
}
use cluster_api_provider_kub.Controllers.Machine.Normal.{
  check_secret, check_container, secret_answer, is_controlled_by,
}
use cluster_api_provider_kub.Controllers.Machine.Names.{machine_kind}

-- A client's `Create` leaves its argument alone where it fails, and keeps its owner references where
-- it succeeds.
pub record CreateLaw (p : Platform) : Type 0 where
  pub references_kept :
      (log : Log) (s : Secret)
      → (p.secret_created log s).0.meta.owner_references ≡ s.meta.owner_references
  -- `GetControllerOf` looks at the owner references alone.
  pub controller_of_references :
      (m m' : ObjectMeta)
      → m.owner_references ≡ m'.owner_references
      → p.get_controller_of m ≡ p.get_controller_of m'

module _ (p : Platform) (controller_law : ControllerLaw p) (create_law : CreateLaw p)
    (cluster : Cluster) (machine : Machine) (k : KubernetesMachine) where
  abbrev meta_of : Outcome Secret → ObjectMeta → ObjectMeta
  meta_of (done s) m = s.meta
  meta_of (fail e) m = m
  meta_of panic m = m

  owned_secret-controlled :
      (s s' : Secret) (r : Result ObjectMeta)
      → p.set_controller_reference machine_kind k.meta s.meta ≡ r
      → owned_secret s r ≡ done s'
      → is_controlled_by p s'.meta k.meta ≡ true
  unfolding owned_secret is_controlled_by
  owned_secret-controlled s s' (err x) eq e = cc e
  owned_secret-controlled s s' (ok m) eq e =
      let (ref, found, same, _, _, _) =
        controller_law.controller_set machine_kind k.meta s.meta m eq in
      let same_meta : m ≡ s'.meta = ap (λ o. meta_of o m) e in
      rw (sym same_meta, is_controlled_by, found, same) (eq_refl k.meta.uid)

  script_secret-controlled :
      (script : Outcome Bytes) (s : Secret)
      → script_secret p cluster machine k script ≡ done s
      → is_controlled_by p s.meta k.meta ≡ true
  unfolding script_secret
  script_secret-controlled (done script) s e =
      owned_secret-controlled (unowned_secret cluster machine k script) s _ refl e
  script_secret-controlled (fail x) s e = cc e
  script_secret-controlled panic s e = cc e

  generate-decoded :
      (text : Bytes) (s : Secret) (r : Option Bytes)
      → decode text ≡ r
      → generate_cloud_init_secret p cluster machine k text ≡ done s
      → is_controlled_by p s.meta k.meta ≡ true
  unfolding generate_cloud_init_secret
  generate-decoded text s none eq e =
      let failed : generate_cloud_init_secret p cluster machine k text
          ≡ fail (
              wrapped "failed to decode machine's bootstrap data" (message "illegal base64 data")) =
        rw (eq, generate_cloud_init_secret) in
      cc (failed, e)
  generate-decoded text s (some config) eq e =
      let made : generate_cloud_init_secret p cluster machine k text
          ≡ script_secret p cluster machine k (generate_script p.parsers config) =
        rw (eq, generate_cloud_init_secret) in
      script_secret-controlled (generate_script p.parsers config) s (sym made ∙ e)

  -- The check after `Create` passes for a Secret that the machine controls.
  secret_answer-controlled :
      (log : Log) (pod : Pod) (answer : Secret × Option Error)
      → is_controlled_by p answer.0.meta k.meta ≡ true
      → (answer.1 ≡ none) ⊎ ((e : Error) × (answer.1 ≡ some e) × (is_already_exists e ≡ true))
      → secret_answer p cluster k log pod answer ≡ check_container p cluster k log pod
  unfolding secret_answer check_secret
  secret_answer-controlled log pod (s, none) c a = rw c
  secret_answer-controlled log pod (s, some x) c (inl n) = absurd (cc n)
  secret_answer-controlled log pod (s, some x) c (inr (e, eq, exists)) = ground arith

  -- Where setting a controller and `Create` keep their laws, and the bootstrap Secret is built, the
  -- check of its controller passes whether `Create` made it or says that one of its name is there
  -- already.
  pub secret_answer-passes :
      (log : Log) (pod : Pod) (text : Bytes) (s : Secret)
      → generate_cloud_init_secret p cluster machine k text ≡ done s
      → ((p.secret_created log s).1 ≡ none)
        ⊎ ((e : Error) × ((p.secret_created log s).1 ≡ some e) × (is_already_exists e ≡ true))
      → secret_answer p cluster k (create_secret s ∷ log) pod (p.secret_created log s)
        ≡ check_container p cluster k (create_secret s ∷ log) pod
  unfolding is_controlled_by
  secret_answer-passes log pod text s made a =
      secret_answer-controlled (create_secret s ∷ log) pod (p.secret_created log s)
        (rw
          (
            create_law.controller_of_references (p.secret_created log s).0.meta s.meta
                (create_law.references_kept log s),
            is_controlled_by,
          )
          (generate-decoded text s _ refl made))
        a

-- Where the Secret of the bootstrap data is found and has a value, `getBootstrapData` returns a text
-- from which `generatateCloudInitSecret` gets that value back, whatever its bytes: the decoding
-- never fails, and the script is made from the value.
pub get_bootstrap_data-generate :
    (p : Platform) (cluster : Cluster) (machine : Machine) (k : KubernetesMachine) (log : Log)
    (name : String) (s : Secret) (value : Bytes)
    → machine.data_secret_name ≡ some name
    → p.secret log (record { namespace = machine.meta.namespace; name = name }) ≡ ok s
    → lookup "value" s.contents ≡ some value
    → All IsByte value
    → (text : Bytes) × ((get_bootstrap_data p machine log).0 ≡ ok text)
      × (generate_cloud_init_secret p cluster machine k text
          ≡ script_secret p cluster machine k (generate_script p.parsers value))
unfolding get_bootstrap_data bootstrap_value value_of generate_cloud_init_secret
get_bootstrap_data-generate p cluster machine k log name s value n found v bytes =
    (encode value, rw (n, found, v), rw (decode-encode value bytes, generate_cloud_init_secret))
