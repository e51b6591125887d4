-- ===== src/Tests/Calls.antt =====
-- The theorems on the calls of a reconciliation at concrete inputs.
use cluster_api_provider_kub.Prelude.{[], refl, length, ◌≤◌, ◌+◌, ◌*◌}
use cluster_api_provider_kub.Platform.{Call}
use cluster_api_provider_kub.Platform.Lawful.{RangeLaw}
use cluster_api_provider_kub.Controllers.Machine.Reconcile.{reconcile}
use cluster_api_provider_kub.Controllers.Machine.Calls.Bounds.{length-reconcile}
use cluster_api_provider_kub.Tests.Machines.{request}
use cluster_api_provider_kub.Tests.Fixtures.{bare_platform, new_machine}

bare_platform-RangeLaw : RangeLaw bare_platform
bare_platform-RangeLaw = record {
  length-range = λ claims. refl;
  in_range_iff = λ claims entry. (λ i. i, λ i. i);
}

length-reconcile_example :
    length (reconcile bare_platform request []).1
    ≤ length {A = Call} [] + (11 + 2 * length new_machine.spec.volume_claim_templates)
length-reconcile_example =
    length-reconcile bare_platform request [] new_machine bare_platform-RangeLaw refl
