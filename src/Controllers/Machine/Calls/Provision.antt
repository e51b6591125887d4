-- ===== src/Controllers/Machine/Calls/Provision.antt =====
-- The calls for a pod that is there and is the machine's.
use cluster_api_provider_kub.Prelude.{
  none, some, ◌∷◌, ◌≡◌, ◌⊎◌, refl, true, inl, inr, Option, sym, ap,
}
use cluster_api_provider_kub.Go.{Result, ok, err, Error, Outcome, done, fail, panic}
use cluster_api_provider_kub.Go.Text.{Bytes}
use cluster_api_provider_kub.Kube.{Cluster, Machine, Pod, Secret}
use cluster_api_provider_kub.Api.V1alpha3.{KubernetesMachine}
use cluster_api_provider_kub.Platform.{Platform, Log, create_secret}
use cluster_api_provider_kub.Controllers.Common.{is_already_exists}
use cluster_api_provider_kub.Controllers.Machine.Calls.Container.{
  Leaves, leaves, left, Leaves-if, ContainerCalls, check_container-Leaves,
}
use cluster_api_provider_kub.Controllers.Machine.Claims.{create_persistent_volume_claims}
use cluster_api_provider_kub.Controllers.Machine.Bootstrap.{
  get_bootstrap_data, generate_cloud_init_secret,
}
use cluster_api_provider_kub.Controllers.Machine.Normal.{
  is_controlled_by, with_claims, with_bootstrap_data, with_secret, secret_answer, check_secret,
}

module _ (p : Platform) (cluster : Cluster) (machine : Machine) (k : KubernetesMachine) where
  -- An answer to the creation of a Secret: the machine controls the Secret, and there was no error, or
  -- the one that says that there is such a Secret already.
  abbrev IsThere : Secret × Option Error → Type 0
  IsThere (s, answer) =
      (is_controlled_by p s.meta k.meta ≡ true)
      × ((answer ≡ none) ⊎ ((e : Error) × (answer ≡ some e) × (is_already_exists e ≡ true)))

  -- For a pod that is the machine's: the calls for its claims; after them, if there was no error, the
  -- lookup of the bootstrap data's Secret; after it, the creation of the Secret with the scripts that
  -- were made from it; and then, if that gave no error or there is one already, and the machine controls
  -- the Secret, the calls for the kind container.
  pub data ProvisionCalls (pod : Pod) (log log' : Log) : Type 0 where
    for_claims : log' ≡ (create_persistent_volume_claims p k log).1 → ProvisionCalls pod log log'
    for_data :
        (l : Log)
        → create_persistent_volume_claims p k log ≡ (none, l)
        → log' ≡ (get_bootstrap_data p machine l).1
        → ProvisionCalls pod log log'
    for_secret :
        (l : Log) (text : Bytes) (s : Secret)
        → create_persistent_volume_claims p k log ≡ (none, l)
        → (get_bootstrap_data p machine l).0 ≡ ok text
        → generate_cloud_init_secret p cluster machine k text ≡ done s
        → log' ≡ create_secret s ∷ (get_bootstrap_data p machine l).1
        → ProvisionCalls pod log log'
    for_container :
        (l : Log) (text : Bytes) (s : Secret)
        → create_persistent_volume_claims p k log ≡ (none, l)
        → (get_bootstrap_data p machine l).0 ≡ ok text
        → generate_cloud_init_secret p cluster machine k text ≡ done s
        → IsThere (p.secret_created (get_bootstrap_data p machine l).1 s)
        → ContainerCalls p cluster k pod (create_secret s ∷ (get_bootstrap_data p machine l).1) log'
        → ProvisionCalls pod log log'

  module _ (pod : Pod) (log : Log) where
    module _ (l : Log) (text : Bytes) (s : Secret)
        (claimed : create_persistent_volume_claims p k log ≡ (none, l))
        (found : (get_bootstrap_data p machine l).0 ≡ ok text)
        (made : generate_cloud_init_secret p cluster machine k text ≡ done s) where
      abbrev asked : Log
      asked = (get_bootstrap_data p machine l).1

      abbrev sent : Log
      sent = create_secret s ∷ asked

      check_secret-Leaves :
          (s' : Secret)
          → (is_controlled_by p s'.meta k.meta ≡ true → IsThere (p.secret_created asked s))
          → Leaves (ProvisionCalls pod log) (check_secret p cluster k sent pod s')
      unfolding check_secret
      check_secret-Leaves s' there =
          Leaves-if (is_controlled_by p s'.meta k.meta) _ _
            (λ owned. leaves (
              for_container l text s claimed found made (there owned)
                (left _ (check_container-Leaves p cluster k pod sent))))
            (λ _. leaves (for_secret l text s claimed found made refl))

      secret_answer-Leaves :
          (a : Secret × Option Error)
          → p.secret_created asked s ≡ a
          → Leaves (ProvisionCalls pod log) (secret_answer p cluster k sent pod a)
      unfolding secret_answer
      secret_answer-Leaves (s', none) q = check_secret-Leaves s' (λ owned. rw q (owned, inl refl))
      secret_answer-Leaves (s', some e) q =
          Leaves-if (is_already_exists e) _ _
            (λ exists. check_secret-Leaves s' (λ owned. rw q (owned, inr (e, refl, exists))))
            (λ _. leaves (for_secret l text s claimed found made refl))

    with_secret-Leaves :
        (l : Log) (text : Bytes)
        → create_persistent_volume_claims p k log ≡ (none, l)
        → (get_bootstrap_data p machine l).0 ≡ ok text
        → (o : Outcome Secret) → generate_cloud_init_secret p cluster machine k text ≡ o
        → Leaves
            (ProvisionCalls pod log)
            (with_secret p cluster k (get_bootstrap_data p machine l).1 pod o)
    unfolding with_secret
    with_secret-Leaves l text c d (fail e) g = leaves (for_data l c refl)
    with_secret-Leaves l text c d panic g = leaves (for_data l c refl)
    with_secret-Leaves l text c d (done s) g =
        secret_answer-Leaves l text s c d g (p.secret_created (get_bootstrap_data p machine l).1 s)
          refl

    with_bootstrap_data-Leaves :
        (l : Log)
        → create_persistent_volume_claims p k log ≡ (none, l)
        → (r : Result Bytes × Log) → get_bootstrap_data p machine l ≡ r
        → Leaves (ProvisionCalls pod log) (with_bootstrap_data p cluster machine k pod r)
    unfolding with_bootstrap_data
    with_bootstrap_data-Leaves l c (err e, l') q =
        leaves (for_data l c (sym (ap (λ (r : Result Bytes × Log). r.1) q)))
    with_bootstrap_data-Leaves l c (ok text, l') q =
        let same = ap (λ (r : Result Bytes × Log). r.1) q in
        rw (sym same) (with_secret-Leaves l text c (ap (λ (r : Result Bytes × Log). r.0) q) _ refl)

    pub provision-Leaves :
        (r : Option Error × Log)
        → create_persistent_volume_claims p k log ≡ r
        → Leaves (ProvisionCalls pod log) (with_claims p cluster machine k pod r)
    unfolding with_claims
    provision-Leaves (some e, l) q =
        leaves (for_claims (sym (ap (λ (r : Option Error × Log). r.1) q)))
    provision-Leaves (none, l) q =
        with_bootstrap_data-Leaves l q (get_bootstrap_data p machine l) refl
