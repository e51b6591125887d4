-- ===== src/Tests/Mounts.antt =====
-- The mounts of a kind container at a concrete input.
use cluster_api_provider_kub.Prelude.{All, true, ◌≡◌, [], ◌∷◌, false}
use cluster_api_provider_kub.Kube.{VolumeMount, Container}
use cluster_api_provider_kub.Controllers.Machine.Volumes.{has_volume, add_default_volumes}
use cluster_api_provider_kub.Controllers.Machine.Container.{set_volume_mounts}
use cluster_api_provider_kub.Controllers.Machine.Mounts.{
  Mounted, default_mounts, set_volume_mounts-Mounted,
}
use cluster_api_provider_kub.Tests.Fixtures.{kind_container}

-- A kind container in which the user mounts a volume of their own at /tmp.
abbrev mounting_container : Container
mounting_container = record kind_container {
  volume_mounts =
      record { name = "scratch"; mount_path = "/tmp"; sub_path = ""; read_only = false; rest = "" }
      ∷ [];
}

set_volume_mounts-Mounted_example :
    Mounted default_mounts mounting_container (set_volume_mounts mounting_container)
    × All
        (λ (m : VolumeMount). has_volume (add_default_volumes "km" []) m.name ≡ true)
        default_mounts
set_volume_mounts-Mounted_example = set_volume_mounts-Mounted mounting_container "km" []
