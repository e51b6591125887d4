-- ===== src/Controllers/Machine/Mounts.antt =====
-- The volume mounts of the kind container.
use cluster_api_provider_kub.Prelude.{
  any-append, ap, sym, All, eq_refl, Bool-cases, ◌∙◌, append_nil, append_assoc, String, Bool, List,
  [], ◌∷◌, ◌++◌, ◌≡◌, true, false, refl, arith, eq_iff, ◌||◌, In, inl, inr, ◌==◌,
}
use cluster_api_provider_kub.Kube.{Volume, VolumeMount, Container}
use cluster_api_provider_kub.Controllers.Machine.Volumes.{
  has_volume, add_default_volumes, has_mount, set_volume_mount,
}
use cluster_api_provider_kub.Controllers.Machine.Defaults.{add_default_volumes_complete}
use cluster_api_provider_kub.Controllers.Machine.Container.{set_volume_mounts}

-- No two mounts have the same path.
abbrev pub Distinct : List VolumeMount → Type 0
Distinct [] = Unit {0}
Distinct (m ∷ mounts) = (has_mount mounts m.mount_path ≡ false) × Distinct mounts

-- A container with mounts of a list, each added unless its path is taken.
unfoldable add_mounts : List VolumeMount → Container → Container
add_mounts [] c = c
add_mounts (m ∷ mounts) c =
    add_mounts mounts (set_volume_mount c m.name m.mount_path m.sub_path m.read_only)

abbrev mount : String → String → String → Bool → VolumeMount
mount name' mount_path' sub_path' read_only' = record {
  name = name';
  mount_path = mount_path';
  sub_path = sub_path';
  read_only = read_only';
  rest = "";
}

-- The mounts of `setKindContainerBase`; one stands there twice.
abbrev pub default_mounts : List VolumeMount
default_mounts =
    mount "tmp" "/tmp" "" false
    ∷ mount "run" "/run" "" false
    ∷ mount "lib-modules" "/lib/modules" "" true
    ∷ mount "var-lib-containerd" "/var/lib/containerd" "" false
    ∷ mount "var-log" "/var/log" "" false
    ∷ mount "cloud-init-scripts" "/opt/cloud-init" "" false
    ∷ mount "cloud-init-systemd-units" "/etc/systemd/system/cloud-init.service" "cloud-init.service"
        false
    ∷ mount "cloud-init-systemd-units" "/etc/systemd/system/cloud-init.path" "cloud-init.path" false
    ∷ mount "cloud-init-systemd-units" "/etc/systemd/system/cloud-init.path" "cloud-init.path" false
    ∷ mount "etc-systemd-system-kubelet-service-d"
        "/etc/systemd/system/kubelet.service.d/20-capk.conf" "20-capk.conf" false
    ∷ []

-- `c'` is `c` with more mounts: those of `mounts` whose paths were free.
pub record Mounted (mounts : List VolumeMount) (c c' : Container) : Type 0 where
  pub added : List VolumeMount
  pub kept : c' ≡ record c { volume_mounts = c.volume_mounts ++ added }
  pub from_defaults : (m : VolumeMount) → In m added → In m mounts
  pub complete : (m : VolumeMount) → In m mounts → has_mount c'.volume_mounts m.mount_path ≡ true
  pub distinct : Distinct c.volume_mounts → Distinct c'.volume_mounts

has_mount-append :
    (ms : List VolumeMount) (m : VolumeMount) (path : String)
    → has_mount (ms ++ m ∷ []) path ≡ (has_mount ms path || m.mount_path == path)
unfolding has_mount
has_mount-append [] m path = ground arith
has_mount-append (x ∷ ms) m path = ground (arith, has_mount-append ms m path)

eq_sym_false : (a b : String) → (a == b) ≡ false → (b == a) ≡ false
eq_sym_false a b q = ground (arith, q, eq_iff a b, eq_iff b a)

Distinct-append :
    (ms : List VolumeMount) (m : VolumeMount)
    → has_mount ms m.mount_path ≡ false
    → Distinct ms
    → Distinct (ms ++ m ∷ [])
unfolding has_mount
Distinct-append [] m free d = (refl, tt)
Distinct-append (x ∷ ms) m free (taken, d) = (
  has_mount-append ms m x.mount_path
      ∙ rw taken (eq_sym_false x.mount_path m.mount_path (ground (arith, free))),
  Distinct-append ms m (ground (arith, free)) d,
)

has_mount-kept :
    (ms added : List VolumeMount) (path : String)
    → has_mount ms path ≡ true
    → has_mount (ms ++ added) path ≡ true
unfolding has_mount
has_mount-kept ms added path q =
    rw (any-append (λ (x : VolumeMount). x.mount_path == path) ms added, q) refl

-- A mount with no other fields.
abbrev IsPlain : VolumeMount → Type 0
IsPlain m = m.rest ≡ ""

abbrev with_mount : Container → VolumeMount → Container
with_mount c m = record c { volume_mounts = c.volume_mounts ++ m ∷ [] }

set_volume_mount_taken :
    (c : Container) (m : VolumeMount)
    → has_mount c.volume_mounts m.mount_path ≡ true
    → set_volume_mount c m.name m.mount_path m.sub_path m.read_only ≡ c
unfolding set_volume_mount
set_volume_mount_taken c m q = rw q refl

set_volume_mount_free :
    (c : Container) (m : VolumeMount)
    → IsPlain m
    → has_mount c.volume_mounts m.mount_path ≡ false
    → set_volume_mount c m.name m.mount_path m.sub_path m.read_only ≡ with_mount c m
unfolding set_volume_mount
set_volume_mount_free c m e q =
    rw q (ap (λ (r : String). with_mount c (record m { rest = r })) (sym e))

module _ (m : VolumeMount) (mounts : List VolumeMount) (c : Container) where
  Mounted-taken :
      has_mount c.volume_mounts m.mount_path ≡ true
      → (c' : Container) → Mounted mounts c c'
      → Mounted (m ∷ mounts) c c'
  Mounted-taken q c' h = record {
    added = h.added;
    kept = h.kept;
    from_defaults = λ x i. inr (h.from_defaults x i);
    complete = λ x i. elim i [
      | inl e ↦ rw (e, h.kept) (has_mount-kept c.volume_mounts h.added m.mount_path q)
      | inr i' ↦ h.complete x i'
    ];
    distinct = h.distinct;
  }

  Mounted-free :
      has_mount c.volume_mounts m.mount_path ≡ false
      → (c' : Container) → Mounted mounts (with_mount c m) c'
      → Mounted (m ∷ mounts) c c'
  Mounted-free q c' h = record {
    added = m ∷ h.added;
    kept =
        h.kept
        ∙ ap (λ (ms : List VolumeMount). record c { volume_mounts = ms })
            (append_assoc c.volume_mounts m h.added);
    from_defaults = λ x i. elim i [ inl e ↦ inl e | inr i' ↦ inr (h.from_defaults x i') ];
    complete = λ x i. elim i [
      | inl e ↦
          rw (e, h.kept)
            (has_mount-kept (c.volume_mounts ++ m ∷ []) h.added m.mount_path (
              rw (has_mount-append c.volume_mounts m m.mount_path, eq_refl m.mount_path)
                (rw q refl)))
      | inr i' ↦ h.complete x i'
    ];
    distinct = λ d. h.distinct (Distinct-append c.volume_mounts m q d);
  }

add_mounts-Mounted :
    (mounts : List VolumeMount) (c : Container)
    → All IsPlain mounts
    → Mounted mounts c (add_mounts mounts c)
unfolding add_mounts
add_mounts-Mounted [] c plain = record {
  added = [];
  kept =
      ap (λ (ms : List VolumeMount). record c { volume_mounts = ms })
        (sym (append_nil c.volume_mounts));
  from_defaults = λ m i. absurd i;
  complete = λ m i. absurd i;
  distinct = λ d. d;
}
add_mounts-Mounted (m ∷ mounts) c (e, plain) =
    elim (Bool-cases (has_mount c.volume_mounts m.mount_path)) [
      | inl q ↦
          rw (set_volume_mount_taken c m q)
            (Mounted-taken m mounts c q _ (add_mounts-Mounted mounts c plain))
      | inr q ↦
          rw (set_volume_mount_free c m e q)
            (Mounted-free m mounts c q _ (add_mounts-Mounted mounts (with_mount c m) plain))
    ]

default_mounts-volumes :
    (secret_name : String) (volumes : List Volume)
    → All (λ m. has_volume (add_default_volumes secret_name volumes) m.name ≡ true) default_mounts
default_mounts-volumes secret_name volumes =
    let (_, _, _, has) = add_default_volumes_complete secret_name volumes in
    let units = has _ (inr (inr (inr (inr (inr (inr (inl refl))))))) in
    (
      has _ (inl refl),
      (
        has _ (inr (inl refl)),
        (
          has _ (inr (inr (inl refl))),
          (
            has _ (inr (inr (inr (inl refl)))),
            (
              has _ (inr (inr (inr (inr (inl refl))))),
              (
                has _ (inr (inr (inr (inr (inr (inl refl)))))),
                (
                  units,
                  (
                    units,
                    (units, (has _ (inr (inr (inr (inr (inr (inr (inr (inl refl)))))))), tt)),
                  ),
                ),
              ),
            ),
          ),
        ),
      ),
    )

-- The last statements of `setKindContainerBase`, which set the volume mounts, add to a container those
-- of the default mounts whose paths are free, after its own, and change nothing else of it; then every
-- default path is mounted, and where the container's own paths differ from each other, all do. The
-- volume of each default mount is there once the default volumes are added to any volumes.
pub set_volume_mounts-Mounted :
    (c : Container) (secret_name : String) (volumes : List Volume)
    → Mounted default_mounts c (set_volume_mounts c)
      × All
          (λ (m : VolumeMount). has_volume (add_default_volumes secret_name volumes) m.name ≡ true)
          default_mounts
unfolding set_volume_mounts add_mounts
set_volume_mounts-Mounted c secret_name volumes =
    (add_mounts-Mounted default_mounts c (ground arith), default_mounts-volumes secret_name volumes)
