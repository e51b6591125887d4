-- ===== src/Tests/Settling.antt =====
-- A platform that also keeps what is patched, and a machine's runs of `Reconcile` on it.
use cluster_api_provider_kub.Tests.Laws.{empty_platform-ControllerLaw, empty_platform-CreateLaw}
use cluster_api_provider_kub.Prelude.{[], ◌∷◌, ◌≡◌, refl, none, some, codes, arith, Option, ◌⊎◌}
use cluster_api_provider_kub.Go.{Result, ok, status, not_found, Error}
use cluster_api_provider_kub.Kube.{NamespacedName}
use cluster_api_provider_kub.Api.V1alpha3.{KubernetesMachine}
use cluster_api_provider_kub.Platform.{Log, Platform, patch_machine}
use cluster_api_provider_kub.Platform.Lawful.{ControllerLaw, FreshLaw}
use cluster_api_provider_kub.Controllers.Common.{returned, empty_result, CtrlResult, panicked}
use cluster_api_provider_kub.Controllers.Machine.Secrets.{CreateLaw}
use cluster_api_provider_kub.Controllers.Machine.Reconcile.{reconcile}
use cluster_api_provider_kub.Controllers.Machine.Convergence.Settled.{
  IsRunning, reconciles-IsRunning,
}
use cluster_api_provider_kub.Controllers.Machine.Convergence.Provisioned.{Works}
use cluster_api_provider_kub.Controllers.Machine.Convergence.Whole.{Attached, reconciles}
use cluster_api_provider_kub.Controllers.Machine.Convergence.Prepared.{Prepared}
use cluster_api_provider_kub.Tests.Laws.{empty_platform-ControllerLaw, empty_platform-CreateLaw}
use cluster_api_provider_kub.Tests.MachineRuns.{machine_runs}
use cluster_api_provider_kub.Tests.Fixtures.{
  cluster, new_machine, worker, bootstrap_secret, served_cluster,
}
use cluster_api_provider_kub.Tests.Starting.{
  new_machine_has_no_pod, starting_platform, starting_platform-Works,
}
use cluster_api_provider_kub.Controllers.Machine.Returns.Total.{Culprit, reconcile_returns}

-- The machine as it was last patched.
abbrev last_patched : Log → Result KubernetesMachine
last_patched [] = ok new_machine
last_patched (patch_machine k ∷ log) = ok k
last_patched (_ ∷ log) = last_patched log

abbrev settling_platform : Platform
settling_platform = record starting_platform {
  kubernetes_machine = λ log key. last_patched log;
  kubernetes_cluster = λ log key. ok served_cluster;
  owner_machine = λ log m. ok (some worker);
  cluster_from_metadata = λ log m. ok (some cluster);
}

settling_platform-Works : Works settling_platform
settling_platform-Works = record {
  claims_looked_up = starting_platform-Works.claims_looked_up;
  claims_created = starting_platform-Works.claims_created;
  secrets_created = starting_platform-Works.secrets_created;
  pods_created = starting_platform-Works.pods_created;
  commands_run = starting_platform-Works.commands_run;
  controllers_listed = starting_platform-Works.controllers_listed;
  pods_started = starting_platform-Works.pods_started;
}

settling_platform-ControllerLaw : ControllerLaw settling_platform
settling_platform-ControllerLaw = record {
  controller_set = empty_platform-ControllerLaw.controller_set;
  only_references = empty_platform-ControllerLaw.only_references;
}

settling_platform-CreateLaw : CreateLaw settling_platform
settling_platform-CreateLaw = record {
  references_kept = empty_platform-CreateLaw.references_kept;
  controller_of_references = empty_platform-CreateLaw.controller_of_references;
}

settling_platform-FreshLaw : FreshLaw settling_platform
settling_platform-FreshLaw = record { set_fresh = λ kind owner m unowned ns. (_, refl) }

settling_machine-Prepared : Prepared settling_platform cluster worker new_machine
unfolding machine_runs
settling_machine-Prepared = record {
  cluster_namespace = refl;
  machine_namespace = refl;
  unowned_templates = tt;
  sound = refl;
  secret_name = "m-data";
  named = refl;
  secret = bootstrap_secret;
  secret_found = λ log. refl;
  value = codes "#cloud-config\n";
  valued = refl;
  bytes = ground arith;
  script = codes "#!/bin/bash\n\nset -o errexit\nset -o nounset\nset -o pipefail\n";
  scripted = refl;
}

abbrev km : NamespacedName
km = record { namespace = "ns"; name = "km" }

new_machine-Attached : Attached settling_platform km cluster worker new_machine
new_machine-Attached = record {
  helped = refl;
  patched = λ log k. refl;
  kept = λ log k like. refl;
  owned = λ log m like. refl;
  member = λ log. refl;
  infrastructure = "c";
  referenced = refl;
  infrastructure_found = λ log. (served_cluster, refl);
  infrastructure_ready = refl;
  unpaused = λ m like. refl;
  undeleted = refl;
}

reconciles-IsRunning_example :
    IsRunning settling_platform km (reconciles settling_platform km [] 3)
    × ((reconcile settling_platform km (reconciles settling_platform km [] 2)).0
        ≡ returned empty_result none)
reconciles-IsRunning_example =
    reconciles-IsRunning settling_platform settling_platform-Works settling_platform-FreshLaw
      settling_platform-ControllerLaw settling_platform-CreateLaw km cluster worker new_machine
      new_machine-Attached [] (status not_found "not found") 0 refl settling_machine-Prepared refl
      refl new_machine_has_no_pod

reconcile_returns_example :
    ((result : CtrlResult) × (e : Option Error) × ((reconcile settling_platform km
          (reconciles settling_platform km [] 2)).0
        ≡ returned result e))
    ⊎ (((reconcile settling_platform km (reconciles settling_platform km [] 2)).0 ≡ panicked)
        × ((k' : KubernetesMachine) × (calls : Log) × ((reconcile settling_platform km
                (reconciles settling_platform km [] 2)).1
              ≡ patch_machine k' ∷ calls)
            × Culprit settling_platform km (reconciles settling_platform km [] 2) calls))
reconcile_returns_example =
    reconcile_returns settling_platform km (reconciles settling_platform km [] 2)
