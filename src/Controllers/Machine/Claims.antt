-- ===== src/Controllers/Machine/Claims.antt =====
-- The PersistentVolumeClaims of a machine: `getPersistentVolumeClaims`,
-- `createPersistentVolumeClaims` and `updateStorage`.
use cluster_api_provider_kub.Prelude.{
  String, false, Option, none, some, List, [], ◌∷◌, ◌++◌, if◌then◌else◌, ◌<>◌, is_some, map,
}
use cluster_api_provider_kub.Prelude.Maps.{lookup, insert}
use cluster_api_provider_kub.Go.{Error, message, Result, ok, err, error_text}
use cluster_api_provider_kub.Kube.{
  NamespacedName, ObjectMeta, PersistentVolumeClaim, persistent_volume_claim, Pod, Volume,
}
use cluster_api_provider_kub.Api.V1alpha3.{KubernetesMachine}
use cluster_api_provider_kub.Platform.{
  Platform, Log, get_persistent_volume_claim, create_persistent_volume_claim,
}
use cluster_api_provider_kub.Controllers.Common.{is_not_found}
use cluster_api_provider_kub.Controllers.Machine.Names.{
  get_persistent_volume_claim_name, machine_kind,
}

abbrev pub Claims : Type 0
Claims = List (String × PersistentVolumeClaim)

-- The claim of a template, before its owner is set.
unfoldable pub named_claim : KubernetesMachine → PersistentVolumeClaim → PersistentVolumeClaim
named_claim k template = record template {
  meta = record (template.meta) {
    name = get_persistent_volume_claim_name k template;
    namespace = k.meta.namespace;
  };
}

module _ (p : Platform) (k : KubernetesMachine) where
  unfoldable pub insert_owned : PersistentVolumeClaim → Claims → Result ObjectMeta → Result Claims
  insert_owned template claims (err e) = err e
  insert_owned template claims (ok owned) =
      ok (insert template.meta.name (record (named_claim k template) { meta = owned }) claims)

  unfoldable pub claims_from : List PersistentVolumeClaim → Claims → Result Claims
  unfolding insert_owned
  claims_from [] claims = ok claims
  claims_from (t ∷ templates) claims =
      elim (insert_owned t claims
        (p.set_controller_reference machine_kind k.meta (named_claim k t).meta)) [
          | err e ↦ err e
          | ok claims' ↦ claims_from templates claims'
        ]

  -- `getPersistentVolumeClaims`: the claims by the names of their templates.
  unfoldable pub get_persistent_volume_claims : Result Claims
  unfolding claims_from
  get_persistent_volume_claims = claims_from k.spec.volume_claim_templates []

  -- One turn of the loop: what was not found is created; the error's text, if any.
  unfoldable pub create_missing :
      Log → PersistentVolumeClaim → Result PersistentVolumeClaim → List String × Log
  create_missing log claim (ok _) = ([], log)
  create_missing log claim (err e) =
      if is_not_found e
      then elim (p.persistent_volume_claim_created log claim) [
        | none ↦ ([], create_persistent_volume_claim claim ∷ log)
        | some e' ↦ (
          ("failed to create PVC " <> claim.meta.name <> ": " <> error_text e') ∷ [],
          create_persistent_volume_claim claim ∷ log,
        )
      ]
      else (("failed to retrieve PVC " <> claim.meta.name <> ": " <> error_text e) ∷ [], log)

  unfoldable pub create_claim : Log → PersistentVolumeClaim → List String × Log
  unfolding create_missing
  create_claim log claim =
      let name : NamespacedName = record { namespace = k.meta.namespace; name = claim.meta.name } in
      create_missing (get_persistent_volume_claim name ∷ log) claim
        (p.persistent_volume_claim log name)

  unfoldable pub create_claims : Log → Claims → List String × Log
  create_claims log [] = ([], log)
  create_claims log ((_, claim) ∷ claims) =
      let (errs, log') = create_claim log claim in
      let (more, log'') = create_claims log' claims in (errs ++ more, log'')

  -- `errorutils.NewAggregate`
  unfoldable pub aggregate : List String → Option Error
  aggregate [] = none
  aggregate (e ∷ errs) = some (message (p.aggregate_text (e ∷ errs)))

  -- `createPersistentVolumeClaims`: the error, if any, and the log.
  unfoldable pub create_persistent_volume_claims : Log → Option Error × Log
  unfolding aggregate
  create_persistent_volume_claims log = elim get_persistent_volume_claims [
    | err e ↦ (some e, log)
    | ok claims ↦
        let (errs, log') = create_claims log (p.range_claims claims) in (aggregate errs, log')
  ]

-- The volume of an entry of the map of claims.
unfoldable pub claim_volume : String × PersistentVolumeClaim → Volume
claim_volume (name', claim) = record {
  name = name';
  source = persistent_volume_claim claim.meta.name false;
}

-- The volumes whose names are no key of `claims`.
unfoldable pub unclaimed : Claims → List Volume → List Volume
unclaimed claims [] = []
unclaimed claims (v ∷ volumes) =
    let rest = unclaimed claims volumes in if is_some (lookup v.name claims) then rest else v ∷ rest

-- The volumes that `updateStorage` gives a pod.
unfoldable pub storage_volumes : Platform → Claims → List Volume → List Volume
storage_volumes p claims volumes =
    map claim_volume (p.range_claims claims) ++ unclaimed claims volumes

-- `updateStorage`: the pod with its new volumes.
unfoldable pub update_storage : Platform → KubernetesMachine → Pod → Result Pod
update_storage p k pod = elim (get_persistent_volume_claims p k) [
  | err e ↦ err e
  | ok claims ↦ ok (record pod {
    spec = record (pod.spec) { volumes = storage_volumes p claims pod.spec.volumes };
  })
]
