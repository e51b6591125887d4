-- ===== src/Controllers/Machine/Calls/Grows.antt =====
-- `reconcileNormal` forgets no call that was made before it.
use cluster_api_provider_kub.Prelude.{ap, inl, inr, ◌≡◌, Option-cases, none, Option, ◌∷◌}
use cluster_api_provider_kub.Controllers.Machine.Claims.{Claims, create_persistent_volume_claims}
use cluster_api_provider_kub.Platform.{Call, Platform, Log}
use cluster_api_provider_kub.Api.V1alpha3.{KubernetesMachine}
use cluster_api_provider_kub.Kube.{Cluster, Machine, Pod}
use cluster_api_provider_kub.Controllers.Machine.Calls.ClaimCalls.{
  ClaimCalls, create_persistent_volume_claims-ClaimCalls, no_more, looked_up, created,
}
use cluster_api_provider_kub.Controllers.Machine.Calls.Provision.{
  ProvisionCalls, for_claims, for_data, for_secret, for_container,
}
use cluster_api_provider_kub.Controllers.Machine.Calls.Normal.{
  provisions, NormalCalls, reconcile_normal-NormalCalls, no_calls, looks, creates,
}
use cluster_api_provider_kub.Controllers.Machine.Calls.Container.{
  lists, ContainerCalls, waits, deletes, installs, patches,
}
use cluster_api_provider_kub.Controllers.Machine.Normal.{reconcile_normal, add_finalizers}
use cluster_api_provider_kub.Controllers.Machine.Bootstrap.{get_bootstrap_data}
use cluster_api_provider_kub.Go.{Error}

-- A log that is another with later calls.
pub data Grows (log : Log) : Log → Type 0 where
  as_before : Grows log log
  one_more : {later : Log} {call : Call} → Grows log later → Grows log (call ∷ later)

pub Grows-trans : {a b c : Log} → Grows a b → Grows b c → Grows a c
Grows-trans g as_before = g
Grows-trans g (one_more h) = one_more (Grows-trans g h)

module _ (p : Platform) (k : KubernetesMachine) (l0 : Log) where
  Grows-ClaimCalls :
      {claims : Claims} {log log' : Log}
      → ClaimCalls p k claims log log'
      → Grows l0 log
      → Grows l0 log'
  Grows-ClaimCalls (no_more e) i = rw e i
  Grows-ClaimCalls (looked_up calls) i = Grows-ClaimCalls calls (one_more i)
  Grows-ClaimCalls (created e q n calls) i = Grows-ClaimCalls calls (one_more (one_more i))

  Grows-ContainerCalls :
      {cluster : Cluster} {pod : Pod} {log log' : Log}
      → ContainerCalls p cluster k pod log log'
      → Grows l0 log
      → Grows l0 log'
  Grows-ContainerCalls (waits e) i = rw e i
  Grows-ContainerCalls (deletes cs reason q t a e) i = rw e (one_more i)
  Grows-ContainerCalls (installs cs run e) i = rw e (one_more i)
  Grows-ContainerCalls (lists cs run ready e) i = rw e (one_more (one_more i))
  Grows-ContainerCalls (patches cs pod' pods run ready q e) i =
      rw e (one_more (one_more (one_more i)))

  Grows-create_persistent_volume_claims :
      (log : Log) → Grows l0 log → Grows l0 (create_persistent_volume_claims p k log).1
  Grows-create_persistent_volume_claims log i =
      elim (create_persistent_volume_claims-ClaimCalls p k log) [
        | inl same ↦ rw same i
        | inr (claims, q, calls) ↦ Grows-ClaimCalls calls i
      ]

  module _ (cluster : Cluster) (machine : Machine) where
    Grows-get_bootstrap_data :
        (log : Log) → Grows l0 log → Grows l0 (get_bootstrap_data p machine log).1
    unfolding get_bootstrap_data
    Grows-get_bootstrap_data log i = elim (Option-cases machine.data_secret_name) [
      | inl n ↦ rw (n, get_bootstrap_data) i
      | inr (name, n) ↦ rw (n, get_bootstrap_data) (one_more i)
    ]

    Grows-claimed :
        (log l : Log)
        → create_persistent_volume_claims p k log ≡ (none, l)
        → Grows l0 log
        → Grows l0 l
    Grows-claimed log l q i =
        let grown = Grows-create_persistent_volume_claims log i in
        rw (ap (λ (r : Option Error × Log). r.1) q) at grown

    Grows-ProvisionCalls :
        (pod : Pod) {log log' : Log}
        → ProvisionCalls p cluster machine k pod log log'
        → Grows l0 log
        → Grows l0 log'
    Grows-ProvisionCalls pod {log} (for_claims e) i =
        rw e (Grows-create_persistent_volume_claims log i)
    Grows-ProvisionCalls pod {log} (for_data l q e) i =
        rw e (Grows-get_bootstrap_data l (Grows-claimed log l q i))
    Grows-ProvisionCalls pod {log} (for_secret l text s q d g e) i =
        rw e (one_more (Grows-get_bootstrap_data l (Grows-claimed log l q i)))
    Grows-ProvisionCalls pod {log} (for_container l text s q d g owned calls) i =
        Grows-ContainerCalls calls (one_more (Grows-get_bootstrap_data l (Grows-claimed log l q i)))

    Grows-NormalCalls :
        {log log' : Log} → NormalCalls p cluster machine k log log' → Grows l0 log → Grows l0 log'
    Grows-NormalCalls (no_calls e) i = rw e i
    Grows-NormalCalls (looks e) i = rw e (one_more i)
    Grows-NormalCalls (creates x k' pod q n a s m e) i = rw e (one_more (one_more i))
    Grows-NormalCalls (provisions pod q o h d calls) i = Grows-ProvisionCalls pod calls (one_more i)

pub Grows-reconcile_normal :
    (p : Platform) (k : KubernetesMachine) (l0 : Log) (cluster : Cluster) (machine : Machine)
    (log : Log)
    → Grows l0 log
    → Grows l0 (reconcile_normal p cluster machine k log).log
Grows-reconcile_normal p k l0 cluster machine log i =
    elim (reconcile_normal-NormalCalls p cluster machine k log) [
      | inl (f, e) ↦ rw e i
      | inr (f, calls) ↦ Grows-NormalCalls p (add_finalizers p k) l0 cluster machine calls i
    ]
