-- ===== src/Controllers/Machine/Calls/ClaimCalls.antt =====
-- The calls of `createPersistentVolumeClaims`.
use cluster_api_provider_kub.Prelude.{
  [], ◌∷◌, ◌≡◌, refl, true, arith, Bool-cases, String, ◌⊎◌, inl, inr,
}
use cluster_api_provider_kub.Go.{Result, ok, err, Error, Result-cases}
use cluster_api_provider_kub.Kube.{NamespacedName, PersistentVolumeClaim}
use cluster_api_provider_kub.Api.V1alpha3.{KubernetesMachine}
use cluster_api_provider_kub.Platform.{
  Platform, Log, get_persistent_volume_claim, create_persistent_volume_claim,
}
use cluster_api_provider_kub.Controllers.Common.{is_not_found}
use cluster_api_provider_kub.Controllers.Machine.Claims.{
  Claims, create_claim, create_claims, create_persistent_volume_claims,
  get_persistent_volume_claims, create_missing,
}

abbrev claim_key : KubernetesMachine → PersistentVolumeClaim → NamespacedName
claim_key k claim = record { namespace = k.meta.namespace; name = claim.meta.name }

-- The claims of a list, one after the other: each is looked up in the machine's namespace, and created
-- only where the lookup said that there is none.
pub data ClaimCalls (p : Platform) (k : KubernetesMachine) : Claims → Log → Log → Type 0 where
  no_more : {log log' : Log} → log' ≡ log → ClaimCalls p k [] log log'
  looked_up :
      {log log' : Log} {name : String} {claim : PersistentVolumeClaim} {claims : Claims}
      → ClaimCalls p k claims (get_persistent_volume_claim (claim_key k claim) ∷ log) log'
      → ClaimCalls p k ((name, claim) ∷ claims) log log'
  created :
      {log log' : Log} {name : String} {claim : PersistentVolumeClaim} {claims : Claims} (e : Error)
      → p.persistent_volume_claim log (claim_key k claim) ≡ err e
      → is_not_found e ≡ true
      → ClaimCalls p k claims
          (create_persistent_volume_claim claim
            ∷ get_persistent_volume_claim (claim_key k claim)
            ∷ log)
          log'
      → ClaimCalls p k ((name, claim) ∷ claims) log log'

module _ (p : Platform) (k : KubernetesMachine) where
  -- The log after one claim.
  claim_log :
      (log : Log) (claim : PersistentVolumeClaim) (r : Result PersistentVolumeClaim)
      → ((create_missing p k log claim r).1 ≡ log)
        ⊎ ((e : Error) × (r ≡ err e)
            × (is_not_found e ≡ true)
            × ((create_missing p k log claim r).1 ≡ create_persistent_volume_claim claim ∷ log))
  unfolding create_missing
  claim_log log claim (ok _) = inl refl
  claim_log log claim (err e) = elim (Bool-cases (is_not_found e)) [
    | inl n ↦ inr (e, refl, n, ground arith)
    | inr n ↦ inl (rw n refl)
  ]

  create_claim_log :
      (log : Log) (claim : PersistentVolumeClaim)
      → ((create_claim p k log claim).1 ≡ get_persistent_volume_claim (claim_key k claim) ∷ log)
        ⊎ ((e : Error) × (p.persistent_volume_claim log (claim_key k claim) ≡ err e)
            × (is_not_found e ≡ true)
            × ((create_claim p k log claim).1
                ≡ create_persistent_volume_claim claim
                  ∷ get_persistent_volume_claim (claim_key k claim)
                  ∷ log))
  unfolding create_claim
  create_claim_log log claim = claim_log _ claim (p.persistent_volume_claim log (claim_key k claim))

  create_claims-ClaimCalls :
      (claims : Claims) (log : Log) → ClaimCalls p k claims log (create_claims p k log claims).1
  unfolding create_claims
  create_claims-ClaimCalls [] log = no_more refl
  create_claims-ClaimCalls ((name, claim) ∷ claims) log =
      let asked = get_persistent_volume_claim (claim_key k claim) ∷ log in
      elim (create_claim_log log claim) [
        | inl same ↦ rw same (looked_up (create_claims-ClaimCalls claims asked))
        | inr (e, r, n, more) ↦ rw more (
            created e r n
              (create_claims-ClaimCalls claims (create_persistent_volume_claim claim ∷ asked)))
      ]

  -- The calls of `createPersistentVolumeClaims`: none, where a claim could not be made, and otherwise
  -- those of the claims in the order of `range`.
  pub create_persistent_volume_claims-ClaimCalls :
      (log : Log)
      → ((create_persistent_volume_claims p k log).1 ≡ log)
        ⊎ ((claims : Claims) × (get_persistent_volume_claims p k ≡ ok claims)
            × ClaimCalls p k
                (p.range_claims claims)
                log
                (create_persistent_volume_claims p k log).1)
  unfolding create_persistent_volume_claims
  create_persistent_volume_claims-ClaimCalls log =
      elim (Result-cases (get_persistent_volume_claims p k)) [
        | inl (x, q) ↦ inl (rw (q, create_persistent_volume_claims))
        | inr (claims, q) ↦ inr (
          claims,
          q,
          rw (q, create_persistent_volume_claims)
              (create_claims-ClaimCalls (p.range_claims claims) log),
        )
      ]
