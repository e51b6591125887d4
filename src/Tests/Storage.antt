-- ===== src/Tests/Storage.antt =====
-- The theorem on a pod's storage at a concrete input.
use cluster_api_provider_kub.Prelude.{String, none, false, [], ◌∷◌, ◌≡◌, ◌⊎◌, ◌↔◌, refl, In}
use cluster_api_provider_kub.Prelude.Maps.{lookup}
use cluster_api_provider_kub.Go.{ok}
use cluster_api_provider_kub.Kube.{
  Pod, Volume, PersistentVolumeClaim, new_meta, empty_dir, persistent_volume_claim,
}
use cluster_api_provider_kub.Api.V1alpha3.{KubernetesMachine}
use cluster_api_provider_kub.Controllers.Machine.Claims.{
  Claims, claim_volume, update_storage, get_persistent_volume_claims,
}
use cluster_api_provider_kub.Controllers.Machine.Storage.{update_storage_iff}
use cluster_api_provider_kub.Tests.Fixtures.{empty_platform, new_machine, running_pod}
use cluster_api_provider_kub.Tests.MachineRuns.{machine_runs}

abbrev claim_template : PersistentVolumeClaim
claim_template = record { meta = new_meta "var-log" "" []; rest = "" }

abbrev claiming_machine : KubernetesMachine
claiming_machine = record new_machine {
  spec = record (new_machine.spec) { volume_claim_templates = claim_template ∷ [] };
}

abbrev log_volume : Volume
log_volume = record { name = "var-log"; source = empty_dir "" }

abbrev data_volume : Volume
data_volume = record { name = "data"; source = empty_dir "" }

abbrev claimed_volume : Volume
claimed_volume = record { name = "var-log"; source = persistent_volume_claim "var-log-km" false }

-- A pod with volumes of its own, and as `updateStorage` leaves it.
abbrev pod_before : Pod
pod_before = record running_pod {
  spec = record (running_pod.spec) { volumes = log_volume ∷ data_volume ∷ [] };
}

abbrev pod_after : Pod
pod_after = record running_pod {
  spec = record (running_pod.spec) { volumes = claimed_volume ∷ data_volume ∷ [] };
}

pod_before_stored : update_storage empty_platform claiming_machine pod_before ≡ ok pod_after
unfolding machine_runs
pod_before_stored = refl

update_storage_iff_example :
    (claims : Claims) × (get_persistent_volume_claims empty_platform claiming_machine ≡ ok claims)
    × (In data_volume pod_after.spec.volumes ↔ (
        ((entry : String × PersistentVolumeClaim) × In entry (empty_platform.range_claims claims)
          × (data_volume ≡ claim_volume entry))
        ⊎ (In data_volume pod_before.spec.volumes × (lookup data_volume.name claims ≡ none))))
update_storage_iff_example =
    update_storage_iff empty_platform claiming_machine pod_before pod_after data_volume
      pod_before_stored
