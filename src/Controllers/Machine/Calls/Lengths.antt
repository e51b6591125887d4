-- ===== src/Controllers/Machine/Calls/Lengths.antt =====
-- How many calls the parts of `reconcileNormal` make at most.
use cluster_api_provider_kub.Prelude.{
  ◌+◌, ◌*◌, ◌≤◌, [], ◌∷◌, ◌≡◌, inl, inr, arith, List, String, length, Option, ap,
}
use cluster_api_provider_kub.Prelude.Maps.{insert}
use cluster_api_provider_kub.Go.{Result, ok, err, Error, Result-cases}
use cluster_api_provider_kub.Kube.{Cluster, Machine, Pod, PersistentVolumeClaim, ObjectMeta}
use cluster_api_provider_kub.Api.V1alpha3.{KubernetesMachine}
use cluster_api_provider_kub.Platform.{Platform, Log}
use cluster_api_provider_kub.Platform.Lawful.{RangeLaw}
use cluster_api_provider_kub.Controllers.Machine.Claims.{
  Claims, claims_from, insert_owned, named_claim, get_persistent_volume_claims,
  create_persistent_volume_claims,
}
use cluster_api_provider_kub.Controllers.Machine.Bootstrap.{get_bootstrap_data}
use cluster_api_provider_kub.Controllers.Machine.Names.{machine_kind}
use cluster_api_provider_kub.Controllers.Machine.Calls.ClaimCalls.{
  ClaimCalls, no_more, looked_up, created, create_persistent_volume_claims-ClaimCalls,
}
use cluster_api_provider_kub.Controllers.Machine.Calls.Container.{
  ContainerCalls, waits, deletes, installs, lists, patches,
}
use cluster_api_provider_kub.Controllers.Machine.Calls.Provision.{
  ProvisionCalls, for_claims, for_data, for_secret, for_container,
}
use cluster_api_provider_kub.Controllers.Machine.Calls.Normal.{
  NormalCalls, no_calls, looks, creates, provisions,
}

length-insert-le :
    (key : String) (c : PersistentVolumeClaim) (m : Claims) → length (insert key c m) ≤ length m + 1
unfolding insert
length-insert-le key c [] = omega arith
length-insert-le key c (entry ∷ m) = ground (arith, length-insert-le key c m)

module _ (p : Platform) (k : KubernetesMachine) where
  length-insert_owned :
      (t : PersistentVolumeClaim) (m : Claims) (r : Result ObjectMeta) {m' : Claims}
      → insert_owned p k t m r ≡ ok m'
      → length m' ≤ length m + 1
  unfolding insert_owned
  length-insert_owned t m (err e) h = cc h
  length-insert_owned t m (ok owned) h =
      ground (arith, length-insert-le t.meta.name (record (named_claim k t) { meta = owned }) m)

  length-claims_from :
      (ts : List PersistentVolumeClaim) (m : Claims) {m' : Claims}
      → claims_from p k ts m ≡ ok m'
      → length m' ≤ length m + length ts
  unfolding claims_from
  length-claims_from [] m h = ground arith
  length-claims_from (t ∷ ts) m h =
      elim (Result-cases (
        insert_owned p k t m
          (p.set_controller_reference machine_kind k.meta (named_claim k t).meta))) [
            | inl (x, q) ↦ absurd (ground (arith, h, q))
            | inr (m1, q) ↦
                let rest = length-claims_from ts m1 (rw (q, claims_from) at h) in
                let one = length-insert_owned t m _ q in omega (arith, rest, one)
          ]

  length-ClaimCalls :
      {claims : Claims} {log log' : Log}
      → ClaimCalls p k claims log log'
      → length log' ≤ length log + 2 * length claims
  length-ClaimCalls (no_more e) = ground arith
  length-ClaimCalls (looked_up c) = omega (arith, length-ClaimCalls c)
  length-ClaimCalls (created e q n c) = omega (arith, length-ClaimCalls c)

  length-ContainerCalls :
      {cluster : Cluster} {pod : Pod} {log log' : Log}
      → ContainerCalls p cluster k pod log log'
      → length log' ≤ length log + 3
  length-ContainerCalls (waits e) = ground arith
  length-ContainerCalls (deletes cs reason q t a e) = ground arith
  length-ContainerCalls (installs cs run e) = ground arith
  length-ContainerCalls (lists cs run ready e) = ground arith
  length-ContainerCalls (patches cs c others run ready q e) = ground arith

module _ (p : Platform) (law : RangeLaw p) (cluster : Cluster) (machine : Machine)
    (k : KubernetesMachine) where
  length-create_persistent_volume_claims :
      (log : Log)
      → length (create_persistent_volume_claims p k log).1
        ≤ length log + 2 * length k.spec.volume_claim_templates
  unfolding get_persistent_volume_claims
  length-create_persistent_volume_claims log =
      elim (create_persistent_volume_claims-ClaimCalls p k log) [
        | inl same ↦ omega (arith, ap length same)
        | inr (claims, q, calls) ↦
            let made = length-claims_from p k k.spec.volume_claim_templates [] q in
            let asked = length-ClaimCalls p k calls in
            omega (arith, law.length-range claims, made, asked)
      ]

  length-get_bootstrap_data : (l : Log) → length (get_bootstrap_data p machine l).1 ≤ length l + 1
  unfolding get_bootstrap_data
  length-get_bootstrap_data l = ground arith

  length-ProvisionCalls :
      (pod : Pod) {log log' : Log}
      → ProvisionCalls p cluster machine k pod log log'
      → length log' ≤ length log + 2 * length k.spec.volume_claim_templates + 5
  length-ProvisionCalls pod {log} (for_claims e) =
      omega (arith, ap length e, length-create_persistent_volume_claims log)
  length-ProvisionCalls pod {log} (for_data l c e) =
      let claimed = ap (λ (r : Option Error × Log). length r.1) c in
      omega (
        arith,
        ap length e,
        claimed,
        length-create_persistent_volume_claims log,
        length-get_bootstrap_data l,
      )
  length-ProvisionCalls pod {log} (for_secret l text s c f g e) =
      let claimed = ap (λ (r : Option Error × Log). length r.1) c in
      omega (
        arith,
        ap length e,
        claimed,
        length-create_persistent_volume_claims log,
        length-get_bootstrap_data l,
      )
  length-ProvisionCalls pod {log} (for_container l text s c f g owned calls) =
      let claimed = ap (λ (r : Option Error × Log). length r.1) c in
      let tail = length-ContainerCalls p k calls in
      omega (
        arith,
        tail,
        claimed,
        length-create_persistent_volume_claims log,
        length-get_bootstrap_data l,
      )

  pub length-NormalCalls :
      {log log' : Log}
      → NormalCalls p cluster machine k log log'
      → length log' ≤ length log + 2 * length k.spec.volume_claim_templates + 6
  length-NormalCalls (no_calls e) = omega (arith, ap length e)
  length-NormalCalls (looks e) = omega (arith, ap length e)
  length-NormalCalls (creates x k' pod q n a s m e) = omega (arith, ap length e)
  length-NormalCalls (provisions pod q c h d calls) = omega (arith, length-ProvisionCalls pod calls)
