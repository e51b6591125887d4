-- ===== src/Controllers/Machine/Defaults.antt =====
-- The default volumes of a machine's pod.
use cluster_api_provider_kub.Prelude.{
  [], ◌∷◌, ◌++◌, ◌≡◌, refl, String, true, false, List, In, ◌⊎◌, inl, inr, arith, Bool-cases,
  any-append, ◌||◌, ◌∙◌, ◌==◌, eq_refl,
}
use cluster_api_provider_kub.Kube.{Volume}
use cluster_api_provider_kub.Controllers.Machine.Volumes.{
  has_volume, if_missing, missing_of, add_default_volumes, kind_volumes, secret_volumes,
}

has_volume-append :
    (xs ys : List Volume) (name : String)
    → has_volume (xs ++ ys) name ≡ (has_volume xs name || has_volume ys name)
unfolding has_volume
has_volume-append xs ys name = any-append (λ v. v.name == name) xs ys

-- After the step for a default, the default's name is there.
has_volume-if_missing :
    (volumes : List Volume) (d : Volume)
    → (has_volume volumes d.name || has_volume (if_missing volumes d) d.name) ≡ true
unfolding has_volume if_missing
has_volume-if_missing volumes d = ground (arith, eq_refl d.name)

-- What a step appends is the default, whose name was not there.
if_missing-In :
    (volumes rest : List Volume) (d v : Volume)
    → In v (if_missing volumes d ++ rest)
    → ((v ≡ d) × (has_volume volumes d.name ≡ false)) ⊎ In v rest
unfolding if_missing
if_missing-In volumes rest d v i = elim (Bool-cases (has_volume volumes d.name)) [
  | inl h ↦ inr (rw (if_missing, h) at i)
  | inr h ↦ elim (rw (if_missing, h) at i) [ inl e ↦ inl (e, h) | inr i' ↦ inr i' ]
]

-- A default is there already, or it is appended.
missing_of-has :
    (volumes ds : List Volume) (d : Volume)
    → In d ds
    → (has_volume volumes d.name || has_volume (missing_of volumes ds) d.name) ≡ true
unfolding missing_of
missing_of-has volumes [] d i = absurd i
missing_of-has volumes (x ∷ ds) d (inl e) =
    rw (has_volume-append (if_missing volumes x) (missing_of volumes ds) d.name, e)
      (ground (arith, has_volume-if_missing volumes x))
missing_of-has volumes (x ∷ ds) d (inr i) =
    rw (has_volume-append (if_missing volumes x) (missing_of volumes ds) d.name)
      (ground (arith, missing_of-has volumes ds d i))

-- What is appended is a default whose name no volume had.
missing_of-new :
    (volumes ds : List Volume) (v : Volume)
    → In v (missing_of volumes ds)
    → In v ds × (has_volume volumes v.name ≡ false)
unfolding missing_of
missing_of-new volumes [] v i = absurd i
missing_of-new volumes (x ∷ ds) v i = elim (if_missing-In volumes (missing_of volumes ds) x v i) [
  | inl (e, h) ↦ (inl e, rw e h)
  | inr i' ↦ let (there, new) = missing_of-new volumes ds v i' in (inr there, new)
]

-- The volumes of a machine's pod base are the volumes it had, in their order, and after them defaults
-- whose names were not taken; in the end every default's name is there.
pub add_default_volumes_complete :
    (secret_name : String) (volumes : List Volume)
    → (added : List Volume) × (add_default_volumes secret_name volumes ≡ volumes ++ added)
      × ((v : Volume)
          → In v added
          → In v (kind_volumes ++ secret_volumes secret_name) × (has_volume volumes v.name ≡ false))
      × ((v : Volume)
          → In v (kind_volumes ++ secret_volumes secret_name)
          → has_volume (add_default_volumes secret_name volumes) v.name ≡ true)
unfolding add_default_volumes
add_default_volumes_complete secret_name volumes =
    let ds = kind_volumes ++ secret_volumes secret_name in
    (
      missing_of volumes ds,
      refl,
      missing_of-new volumes ds,
      λ v i.
          (has_volume-append volumes (missing_of volumes ds) v.name
            ∙ missing_of-has volumes ds v i),
    )
