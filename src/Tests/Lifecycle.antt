-- ===== src/Tests/Lifecycle.antt =====
-- The moves between a machine's stages at concrete inputs.
use cluster_api_provider_kub.Prelude.{[], refl}
use cluster_api_provider_kub.Controllers.Machine.History.{
  reconciled, Reach, next, here, reconciliation,
}
use cluster_api_provider_kub.Controllers.Machine.Lifecycle.Stages.{StageStep, IsProvided, stage}
use cluster_api_provider_kub.Controllers.Machine.Lifecycle.Refinement.{
  reconciled-StageStep, Reach-StageSteps, StageSteps,
}
use cluster_api_provider_kub.Tests.Fixtures.{bare_platform, provided_machine}

provided_machine-IsProvided : IsProvided provided_machine
provided_machine-IsProvided = λ _. refl

reconciled-StageStep_example :
    IsProvided (reconciled bare_platform [] provided_machine)
    × StageStep provided_machine.spec.allow_recreation
        (stage provided_machine)
        (stage (reconciled bare_platform [] provided_machine))
reconciled-StageStep_example =
    reconciled-StageStep bare_platform [] provided_machine provided_machine-IsProvided

one_round : Reach provided_machine (reconciled bare_platform [] provided_machine)
one_round = next here (reconciliation bare_platform [] refl)

Reach-StageSteps_example :
    IsProvided (reconciled bare_platform [] provided_machine)
    × StageSteps (stage provided_machine) (stage (reconciled bare_platform [] provided_machine))
Reach-StageSteps_example = Reach-StageSteps provided_machine provided_machine-IsProvided one_round
