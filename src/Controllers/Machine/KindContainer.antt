-- ===== src/Controllers/Machine/KindContainer.antt =====
-- What `setKindContainerBase` makes of a pod's containers.
use cluster_api_provider_kub.Prelude.{
  All, Option, ◌+◌, false, ◌==◌, eq_refl, none, some, get_elem?, ◌++◌, length, set, zero, suc, [],
  ap, ◌∙◌, refl, ◌≡◌, arith, String, Bool, true, List, ℕ, ◌∷◌,
}
use cluster_api_provider_kub.Kube.{Container, Machine, Pod, empty_container}
use cluster_api_provider_kub.Platform.{Platform}
use cluster_api_provider_kub.Utils.Qos.{
  best_effort, guaranteed, burstable, PodQosClass, get_pod_qos,
}
use cluster_api_provider_kub.Utils.Exec.{kind_container_name}
use cluster_api_provider_kub.Controllers.Machine.Volumes.{set_volume_mount}
use cluster_api_provider_kub.Controllers.Machine.Container.{
  set_resources, set_volume_mounts, set_kind_container_base, find_or_create, with_containers,
  update_at, set_privileged_tty, set_name_and_image, kind_index, kind_index_from,
}
use cluster_api_provider_kub.Controllers.Machine.Names.{machine_pod_image}

-- A container keeps its name and image under the later assignments.
name-set_volume_mount :
    (c : Container) (n path sub : String) (ro : Bool)
    → ((set_volume_mount c n path sub ro).name ≡ c.name)
      × ((set_volume_mount c n path sub ro).image ≡ c.image)
      × ((set_volume_mount c n path sub ro).resources ≡ c.resources)
      × ((set_volume_mount c n path sub ro).security_context ≡ c.security_context)
      × ((set_volume_mount c n path sub ro).tty ≡ c.tty)
unfolding set_volume_mount
name-set_volume_mount c n path sub ro = ground arith

set_volume_mounts-fields :
    (c : Container)
    → ((set_volume_mounts c).name ≡ c.name)
      × ((set_volume_mounts c).image ≡ c.image)
      × ((set_volume_mounts c).resources ≡ c.resources)
      × ((set_volume_mounts c).security_context ≡ c.security_context)
      × ((set_volume_mounts c).tty ≡ c.tty)
unfolding set_volume_mounts
set_volume_mounts-fields c = grind (arith, name-set_volume_mount)

-- The assignments after the name and the image.
abbrev pub finished : PodQosClass → Container → Container
finished qos c = set_volume_mounts (set_privileged_tty (set_resources qos c))

pub finished-fields :
    (qos : PodQosClass) (c : Container)
    → ((finished qos c).name ≡ c.name)
      × ((finished qos c).image ≡ c.image)
      × ((finished qos c).tty ≡ true)
      × ((finished qos c).resources ≡ (set_resources qos c).resources)
unfolding set_resources set_privileged_tty
finished-fields best_effort c = grind (arith, set_volume_mounts-fields)
finished-fields guaranteed c = grind (arith, set_volume_mounts-fields)
finished-fields burstable c = grind (arith, set_volume_mounts-fields)

set_kind_container_base_eq :
    (p : Platform) (machine : Machine) (pod : Pod) (cs : List Container) (i : ℕ)
    → find_or_create pod.spec.containers ≡ (cs, i)
    → (qos : PodQosClass) × ((set_kind_container_base p machine pod).0.spec.containers
        ≡ update_at i (finished qos) (update_at i (set_name_and_image machine) cs))
unfolding set_kind_container_base with_containers
set_kind_container_base_eq p machine pod cs i e =
    (get_pod_qos p (with_containers pod (update_at i (set_name_and_image machine) cs)), rw e)

-- None of the containers is named "kind".
abbrev pub NoneNamedKind : List Container → Type 0
NoneNamedKind cs = All (λ (c : Container). (c.name == kind_container_name) ≡ false) cs

-- The loop keeps its index where no container has the name, and leaves that of the last that has it.
kind_index_from_none :
    (n : ℕ) (k : Option ℕ) (cs : List Container) → NoneNamedKind cs → kind_index_from n k cs ≡ k
unfolding kind_index_from
kind_index_from_none n k [] h = refl
kind_index_from_none n k (c ∷ cs) (q, h) = rw q (kind_index_from_none (suc n) k cs h)

kind_index_from_last :
    (n : ℕ) (k : Option ℕ) (before : List Container) (c : Container) (after : List Container)
    → c.name ≡ kind_container_name
    → NoneNamedKind after
    → kind_index_from n k (before ++ c ∷ after) ≡ some (n + length before)
unfolding kind_index_from
kind_index_from_last n k [] c after e h =
    let q : (c.name == kind_container_name) ≡ true =
      ap (λ (s : String). s == kind_container_name) e ∙ eq_refl kind_container_name in
    rw (q, kind_index_from) (kind_index_from_none (suc n) (some n) after h ∙ ap some (omega arith))
kind_index_from_last n k (b ∷ before) c after e h =
    kind_index_from_last (suc n) _ before c after e h ∙ ap some (omega arith)

-- Where a pod has containers and none is named "kind", `setKindContainerBase` gives the first
-- container that name and the node's image, leaves the others, and appends an empty container.
pub set_kind_container_base_no_kind :
    (p : Platform) (machine : Machine) (pod : Pod) (c : Container) (cs : List Container)
    → pod.spec.containers ≡ c ∷ cs
    → NoneNamedKind (c ∷ cs)
    → (c' : Container) × ((set_kind_container_base p machine pod).0.spec.containers
        ≡ c' ∷ (cs ++ empty_container ∷ []))
      × (c'.name ≡ kind_container_name)
      × (c'.image ≡ machine_pod_image machine)
unfolding find_or_create update_at set_name_and_image kind_index
set_kind_container_base_no_kind p machine pod c cs e h =
    let n : kind_index (c ∷ cs) ≡ none = kind_index_from_none 0 none (c ∷ cs) h in
    let found : find_or_create pod.spec.containers ≡ (c ∷ (cs ++ empty_container ∷ []), 0) =
      ap find_or_create e ∙ rw (n, find_or_create) in
    let (qos, eq) = set_kind_container_base_eq p machine pod _ 0 found in
    (
      finished qos (set_name_and_image machine c),
      eq,
      (finished-fields qos (set_name_and_image machine c)).0,
      (finished-fields qos (set_name_and_image machine c)).1,
    )

pub get_elem?-set_self :
    (cs : List Container) (i : ℕ) (a c : Container)
    → get_elem? cs i ≡ some a
    → get_elem? (set cs i c) i ≡ some c
get_elem?-set_self [] i a c e = cc e
get_elem?-set_self (x ∷ cs) zero a c e = refl
get_elem?-set_self (x ∷ cs) (suc i) a c e = get_elem?-set_self cs i a c e

module _ (f : Container → Container) (cs : List Container) (i : ℕ) where
  pub update_at-some : (a : Container) → get_elem? cs i ≡ some a → update_at i f cs ≡ set cs i (f a)
  unfolding update_at
  update_at-some a e = rw (e, update_at)

update_at-length :
    (f : Container → Container) (before : List Container) (c : Container) (after : List Container)
    → update_at (length before) f (before ++ c ∷ after) ≡ before ++ f c ∷ after
update_at-length f before c after =
    update_at-some f (before ++ c ∷ after) (length before) c (there before) ∙ replaced before
  where
    there : (bs : List Container) → get_elem? (bs ++ c ∷ after) (length bs) ≡ some c
    there [] = refl
    there (b ∷ bs) = there bs

    replaced : (bs : List Container) → set (bs ++ c ∷ after) (length bs) (f c) ≡ bs ++ f c ∷ after
    replaced [] = refl
    replaced (b ∷ bs) = ap (λ rest. b ∷ rest) (replaced bs)

-- Where a container is named "kind" and none after it is, `setKindContainerBase` gives it the node's
-- image and a terminal and leaves its name, and leaves every other container as it was and where it
-- was, those before it that are named "kind" too.
pub set_kind_container_base_kind :
    (p : Platform) (machine : Machine) (pod : Pod) (before : List Container) (c : Container)
    (after : List Container)
    → pod.spec.containers ≡ before ++ c ∷ after
    → c.name ≡ kind_container_name
    → NoneNamedKind after
    → (c' : Container) × ((set_kind_container_base p machine pod).0.spec.containers
        ≡ before ++ c' ∷ after)
      × (c'.name ≡ kind_container_name)
      × (c'.image ≡ machine_pod_image machine)
      × (c'.tty ≡ true)
unfolding find_or_create set_name_and_image kind_index
set_kind_container_base_kind p machine pod before c after e named none_after =
    let cs = before ++ c ∷ after in
    let k : kind_index cs ≡ some (length before) =
      kind_index_from_last 0 none before c after named none_after ∙ ap some (omega arith) in
    let found : find_or_create pod.spec.containers ≡ (cs, length before) =
      ap find_or_create e ∙ rw (k, find_or_create) in
    let (qos, eq) = set_kind_container_base_eq p machine pod cs (length before) found in
    let renamed = set_name_and_image machine c in
    let (name', image', tty', _) = finished-fields qos renamed in
    (
      finished qos renamed,
      eq
          ∙ ap (update_at (length before) (finished qos))
              (update_at-length (set_name_and_image machine) before c after)
          ∙ update_at-length (finished qos) before renamed after,
      name',
      image',
      tty',
    )
