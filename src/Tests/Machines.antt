-- ===== src/Tests/Machines.antt =====
-- The theorems on KubernetesMachines at concrete inputs.
use cluster_api_provider_kub.Prelude.{[], ◌≡◌, refl, true, false, ◌⊎◌, In, List, ◌∷◌, ◌++◌, ◌≢◌}
use cluster_api_provider_kub.Controllers.Machine.Ready.{reconcile_normal-ready, ReadyConditions}
use cluster_api_provider_kub.Controllers.Machine.Normal.{
  reconcile_normal, add_finalizers, pod_key, has_failed,
}
use cluster_api_provider_kub.Tests.MachineRuns.{machine_runs}
use cluster_api_provider_kub.Tests.Fixtures.{
  running_platform, cluster, worker, provided_machine, failed_machine, bare_platform,
  empty_platform, user_container, pod_of, kind_container, new_machine, bare_cluster,
}
use cluster_api_provider_kub.Controllers.Machine.History.{
  Follows, Reach, reconciled, Reach-failed, Reach-provider_id, reconciled-Follows, next, here,
  reconciliation,
}
use cluster_api_provider_kub.Kube.{Container, NamespacedName, Volume, empty_dir, empty_container}
use cluster_api_provider_kub.Controllers.Common.{Run, panicked}
use cluster_api_provider_kub.Controllers.Machine.Phase.{HasPhase, reconcile_phase-HasPhase}
use cluster_api_provider_kub.Controllers.Machine.Reconcile.{
  reconcile, reconcile_phase, reconcile_body, reconcile_version,
}
use cluster_api_provider_kub.Controllers.Machine.Container.{set_kind_container_base}
use cluster_api_provider_kub.Controllers.Machine.Changes.{Change, reconcile_normal-Change}
use cluster_api_provider_kub.Api.V1alpha3.{KubernetesMachine}
use cluster_api_provider_kub.Controllers.Machine.Volumes.{
  add_default_volumes, kind_volumes, secret_volumes, has_volume,
}
use cluster_api_provider_kub.Platform.{
  patch_machine, get_kubernetes_machine, get_cluster_from_metadata, get_owner_machine,
}
use cluster_api_provider_kub.Controllers.Machine.Deferred.{
  Leaves, reconcile-patched, reconcile_no_infrastructure,
}
use cluster_api_provider_kub.Utils.Exec.{kind_container_name}
use cluster_api_provider_kub.Controllers.Machine.Names.{machine_pod_image}
use cluster_api_provider_kub.Controllers.Machine.Defaults.{add_default_volumes_complete}
use cluster_api_provider_kub.Controllers.Machine.KindContainer.{
  set_kind_container_base_no_kind, set_kind_container_base_kind,
}
use cluster_api_provider_kub.Utils.Qos.{get_pod_qos, best_effort}
use cluster_api_provider_kub.Controllers.Machine.KindQos.{set_kind_container_base_not_best_effort}

provided_machine_turns_ready :
    (reconcile_normal running_platform cluster worker provided_machine []).object.status.ready
    ≡ true
unfolding machine_runs
provided_machine_turns_ready = refl

-- A machine with a provider ID and a pod that runs is marked ready.
reconcile_normal-ready_example :
    (has_failed provided_machine ≡ false)
    × ReadyConditions running_platform cluster
        (add_finalizers running_platform provided_machine)
        []
        (pod_key running_platform worker provided_machine)
reconcile_normal-ready_example =
    reconcile_normal-ready running_platform cluster worker provided_machine []
      (refl, provided_machine_turns_ready)

-- The machine changes as the run marks it ready.
reconcile_normal-Change_example :
    ((has_failed provided_machine ≡ true)
      × ((reconcile_normal running_platform cluster worker provided_machine []).object
          ≡ provided_machine))
    ⊎ ((has_failed provided_machine ≡ false)
        × Change running_platform
            (add_finalizers running_platform provided_machine)
            (reconcile_normal running_platform cluster worker provided_machine []).object)
reconcile_normal-Change_example =
    reconcile_normal-Change running_platform cluster worker provided_machine []

-- A reconciliation of a machine that is there, with its cluster.
reconciled-Follows_example : Follows provided_machine (reconciled bare_platform [] provided_machine)
reconciled-Follows_example = reconciled-Follows bare_platform [] provided_machine

two_steps :
    Reach provided_machine
      (reconciled running_platform [] (reconciled bare_platform [] provided_machine))
two_steps =
    next (next here (reconciliation bare_platform [] refl))
      (reconciliation running_platform [] refl)

Reach-provider_id_example :
    (reconciled running_platform [] (reconciled bare_platform [] provided_machine)).spec.provider_id
    ≡ provided_machine.spec.provider_id
Reach-provider_id_example = Reach-provider_id provided_machine refl two_steps

failed_step : Reach failed_machine (reconciled bare_platform [] failed_machine)
failed_step = next here (reconciliation bare_platform [] refl)

failed_machine_failed : has_failed failed_machine ≡ true
unfolding machine_runs
failed_machine_failed = refl

Reach-failed_example :
    (has_failed (reconciled bare_platform [] failed_machine) ≡ true)
    × ((reconciled bare_platform [] failed_machine).status.ready ≡ false)
Reach-failed_example = Reach-failed failed_machine failed_machine_failed refl failed_step

reconcile_phase-HasPhase_example :
    HasPhase failed_machine (reconcile_phase failed_machine).status.phase
    × (reconcile_phase failed_machine ≡ record failed_machine {
      status = record (failed_machine.status) {
        phase = (reconcile_phase failed_machine).status.phase;
      };
    })
    × (reconcile_phase (reconcile_phase failed_machine) ≡ reconcile_phase failed_machine)
reconcile_phase-HasPhase_example = reconcile_phase-HasPhase failed_machine

abbrev pub request : NamespacedName
request = record { namespace = "ns"; name = "km" }

abbrev bare_run : Run KubernetesMachine
bare_run = reconcile_body bare_platform new_machine (get_kubernetes_machine request ∷ [])

reconcile-patched_example :
    (k' : KubernetesMachine) × HasPhase bare_run.object k'.status.phase
    × (k' ≡ record (bare_run.object) {
      status = record (bare_run.object.status) { phase = k'.status.phase };
    })
    × ((reconcile bare_platform request []).1 ≡ patch_machine k' ∷ bare_run.log)
    × Leaves bare_run.exit
        (bare_platform.machine_patched bare_run.log k')
        (reconcile bare_platform request []).0
reconcile-patched_example =
    reconcile-patched bare_platform request [] new_machine refl refl bare_run refl

reconcile_no_infrastructure_example :
    ((reconcile bare_platform request []).0 ≡ panicked)
    × ((reconcile bare_platform request []).1
        ≡ patch_machine (reconcile_phase (reconcile_version new_machine worker))
          ∷ get_cluster_from_metadata worker.meta
          ∷ get_owner_machine new_machine.meta
          ∷ get_kubernetes_machine request
          ∷ [])
reconcile_no_infrastructure_example =
    reconcile_no_infrastructure bare_platform request [] new_machine refl refl worker bare_cluster
      refl refl refl

-- The user's own volume for /tmp.
abbrev user_volume : Volume
user_volume = record { name = "tmp"; source = empty_dir "" }

-- A pod with one container that is not named "kind".
set_kind_container_base_no_kind_example :
    (c' : Container) × ((set_kind_container_base empty_platform worker
        (pod_of (user_container ∷ []))).0.spec.containers
      ≡ c' ∷ ([] ++ empty_container ∷ []))
    × (c'.name ≡ kind_container_name)
    × (c'.image ≡ machine_pod_image worker)
set_kind_container_base_no_kind_example =
    set_kind_container_base_no_kind empty_platform worker (pod_of (user_container ∷ []))
      user_container [] refl (refl, tt)

set_kind_container_base_kind_example :
    (c' : Container) × ((set_kind_container_base empty_platform worker
        (pod_of (kind_container ∷ kind_container ∷ user_container ∷ []))).0.spec.containers
      ≡ kind_container ∷ c' ∷ user_container ∷ [])
    × (c'.name ≡ kind_container_name)
    × (c'.image ≡ machine_pod_image worker)
    × (c'.tty ≡ true)
set_kind_container_base_kind_example =
    set_kind_container_base_kind empty_platform worker
      (pod_of (kind_container ∷ kind_container ∷ user_container ∷ [])) (kind_container ∷ [])
      kind_container (user_container ∷ []) refl refl (refl, tt)

add_default_volumes_complete_example :
    (added : List Volume) × (add_default_volumes "s" (user_volume ∷ [])
      ≡ (user_volume ∷ []) ++ added)
    × ((v : Volume)
        → In v added
        → In v (kind_volumes ++ secret_volumes "s")
          × (has_volume (user_volume ∷ []) v.name ≡ false))
    × ((v : Volume)
        → In v (kind_volumes ++ secret_volumes "s")
        → has_volume (add_default_volumes "s" (user_volume ∷ [])) v.name ≡ true)
add_default_volumes_complete_example = add_default_volumes_complete "s" (user_volume ∷ [])

set_kind_container_base_not_best_effort_example :
    get_pod_qos empty_platform
      (set_kind_container_base empty_platform worker (pod_of (kind_container ∷ []))).0
    ≢ best_effort
set_kind_container_base_not_best_effort_example =
    set_kind_container_base_not_best_effort empty_platform refl worker
      (pod_of (kind_container ∷ []))
