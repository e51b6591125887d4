-- ===== src/Controllers/Machine/Storage.antt =====
-- The volumes that `updateStorage` gives a pod.
use cluster_api_provider_kub.Prelude.{
  String, none, List, [], ◌∷◌, ◌++◌, ◌≡◌, ◌⊎◌, ◌↔◌, refl, arith, inl, inr, In, map, Option-cases,
  ap, ◌∙◌, sym,
}
use cluster_api_provider_kub.Prelude.Maps.{lookup}
use cluster_api_provider_kub.Go.{ok, err, Result-cases, Result}
use cluster_api_provider_kub.Kube.{Pod, Volume, PersistentVolumeClaim}
use cluster_api_provider_kub.Api.V1alpha3.{KubernetesMachine}
use cluster_api_provider_kub.Platform.{Platform}
use cluster_api_provider_kub.Controllers.Machine.Claims.{
  Claims, claim_volume, unclaimed, storage_volumes, update_storage, get_persistent_volume_claims,
}

In-claim_volumes :
    (entries : Claims) (rest : List Volume) (v : Volume)
    → In v (map claim_volume entries ++ rest) ↔ (
        ((entry : String × PersistentVolumeClaim) × In entry entries × (v ≡ claim_volume entry))
        ⊎ In v rest)
In-claim_volumes [] rest v = (λ i. inr i, λ h. elim h [ inl (e, i, _) ↦ absurd i | inr i ↦ i ])
In-claim_volumes (x ∷ entries) rest v =
    let (to, from) = In-claim_volumes entries rest v in
    (
      λ h. elim h [
        | inl e ↦ inl (x, inl refl, e)
        | inr i ↦ elim (to i) [ inl (y, j, e) ↦ inl (y, inr j, e) | inr r ↦ inr r ]
      ],
      λ h. elim h [
        | inl (y, j, e) ↦ elim j [
          | inl same ↦ inl (e ∙ ap claim_volume same)
          | inr j' ↦ inr (from (inl (y, j', e)))
        ]
        | inr r ↦ inr (from (inr r))
      ],
    )

In-unclaimed :
    (claims : Claims) (volumes : List Volume) (v : Volume)
    → In v (unclaimed claims volumes) ↔ (In v volumes × (lookup v.name claims ≡ none))
unfolding unclaimed
In-unclaimed claims [] v = (λ i. absurd i, λ h. absurd h.0)
In-unclaimed claims (x ∷ volumes) v =
    let (to, from) = In-unclaimed claims volumes v in
    elim (Option-cases (lookup x.name claims)) [
      | inl n ↦ rw n (
        λ h. elim h [
          | inl e ↦ (inl e, ap (λ y. lookup y.name claims) e ∙ n)
          | inr i ↦ let (j, m) = to i in (inr j, m)
        ],
        λ (i, m). elim i [ inl e ↦ inl e | inr j ↦ inr (from (j, m)) ],
      )
      | inr (c, s) ↦ rw s (
        λ h. let (j, m) = to h in (inr j, m),
        λ (i, m). elim i [
          | inl e ↦ absurd (let q = sym (ap (λ y. lookup y.name claims) e ∙ s) ∙ m in cc q)
          | inr j ↦ from (j, m)
        ],
      )
    ]

abbrev volumes_of : Result Pod → List Volume
volumes_of (ok pod) = pod.spec.volumes
volumes_of (err _) = []

-- Where `updateStorage` succeeds, the machine's claims have been read, and the pod's volumes are the
-- volumes of the claims that `range` visits and those of its own volumes whose names no claim has: a
-- volume of its own with the name of a claim is replaced.
pub update_storage_iff :
    (p : Platform) (k : KubernetesMachine) (pod pod' : Pod) (v : Volume)
    → update_storage p k pod ≡ ok pod'
    → (claims : Claims) × (get_persistent_volume_claims p k ≡ ok claims)
      × (In v pod'.spec.volumes ↔ (
          ((entry : String × PersistentVolumeClaim) × In entry (p.range_claims claims)
            × (v ≡ claim_volume entry))
          ⊎ (In v pod.spec.volumes × (lookup v.name claims ≡ none))))
unfolding update_storage storage_volumes
update_storage_iff p k pod pod' v e = elim (Result-cases (get_persistent_volume_claims p k)) [
  | inl (x, q) ↦ absurd (ground (arith, e, q))
  | inr (claims, q) ↦
      let stored : volumes_of (update_storage p k pod) ≡ storage_volumes p claims pod.spec.volumes =
        rw (q, update_storage) in
      let same : pod'.spec.volumes ≡ storage_volumes p claims pod.spec.volumes =
        sym (ap volumes_of e) ∙ stored in
      let (to, from) =
        In-claim_volumes (p.range_claims claims) (unclaimed claims pod.spec.volumes) v in
      let (kept, back) = In-unclaimed claims pod.spec.volumes v in
      (
        claims,
        q,
        rw same (
          λ i. elim (to i) [ inl c ↦ inl c | inr u ↦ inr (kept u) ],
          λ h. elim h [ inl c ↦ from (inl c) | inr u ↦ from (inr (back u)) ],
        ),
      )
]
