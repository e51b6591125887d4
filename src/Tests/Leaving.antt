-- ===== src/Tests/Leaving.antt =====
-- A control plane's machine that is being deleted and whose pod is gone.
use cluster_api_provider_kub.Prelude.{[], ◌∷◌, ◌≡◌, refl, none, some, true, ◌↔◌, inl, In}
use cluster_api_provider_kub.Go.{ok, status, not_found}
use cluster_api_provider_kub.Controllers.Common.{is_not_found, returned, empty_result}
use cluster_api_provider_kub.Controllers.Machine.Deletion.{
  Goes, pod_gone, as_control_plane, reconcile_delete-Goes,
}
use cluster_api_provider_kub.Controllers.Machine.Release.{reconcile-Goes, Leaving}
use cluster_api_provider_kub.Controllers.Machine.Reconcile.{reconcile}
use cluster_api_provider_kub.Tests.Laws.{empty_platform-FinalizersLaw}
use cluster_api_provider_kub.Platform.{Platform, Log, patch_machine}
use cluster_api_provider_kub.Kube.{NamespacedName}
use cluster_api_provider_kub.Platform.Lawful.{FinalizersLaw}
use cluster_api_provider_kub.Api.V1alpha3.{KubernetesMachine, kubernetes_machine_finalizer}
use cluster_api_provider_kub.Tests.Fixtures.{
  empty_platform, leaving_machine, controller, cluster, served_cluster,
}
use cluster_api_provider_kub.Controllers.Machine.Delete.{reconcile_delete}

abbrev leaving_platform : Platform
leaving_platform = record empty_platform {
  kubernetes_machine = λ _ _. ok leaving_machine;
  owner_machine = λ _ _. ok (some controller);
  cluster_from_metadata = λ _ _. ok (some cluster);
  kubernetes_cluster = λ _ _. ok served_cluster;
}

leaving_platform-FinalizersLaw : FinalizersLaw leaving_platform
leaving_platform-FinalizersLaw = record {
  in_add = empty_platform-FinalizersLaw.in_add;
  in_add_of_in = empty_platform-FinalizersLaw.in_add_of_in;
  not_in_remove = empty_platform-FinalizersLaw.not_in_remove;
  in_remove_of_in = empty_platform-FinalizersLaw.in_remove_of_in;
}

gone_is_not_found : is_not_found (status not_found "not found") ≡ true
unfolding is_not_found
gone_is_not_found = refl

km : NamespacedName
km = record { namespace = "ns"; name = "km" }

reconcile_delete-Goes_example :
    ((¬ In kubernetes_machine_finalizer
        (reconcile_delete leaving_platform controller leaving_machine cluster
          []).object.meta.finalizers)
      ↔ Goes leaving_platform controller leaving_machine cluster [])
    × (Goes leaving_platform controller leaving_machine cluster []
        → (reconcile_delete leaving_platform controller leaving_machine cluster []).exit
          ≡ returned empty_result none)
reconcile_delete-Goes_example =
    reconcile_delete-Goes leaving_platform leaving_platform-FinalizersLaw controller leaving_machine
      cluster [] (inl refl)

leaving_machine-Leaving : Leaving leaving_platform km [] leaving_machine controller cluster
leaving_machine-Leaving = record {
  found = refl;
  helped = refl;
  owned = refl;
  member = refl;
  infrastructure = "c";
  referenced = refl;
  kubernetes_cluster = served_cluster;
  infrastructure_found = refl;
  unpaused = refl;
  deleted = refl;
}

reconcile-Goes_example :
    (k' : KubernetesMachine) × (before : Log) × ((reconcile leaving_platform km []).1
      ≡ patch_machine k' ∷ before)
    × (¬ In kubernetes_machine_finalizer k'.meta.finalizers)
    × ((reconcile leaving_platform km []).0 ≡ returned empty_result none)
reconcile-Goes_example =
    reconcile-Goes leaving_platform leaving_platform-FinalizersLaw km [] leaving_machine controller
      cluster leaving_machine-Leaving (λ l k'. refl)
      (as_control_plane (pod_gone (status not_found "not found") refl gone_is_not_found))
