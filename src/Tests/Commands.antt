-- ===== src/Tests/Commands.antt =====
-- A command in a container at a concrete input.
use cluster_api_provider_kub.Prelude.{[], ◌∷◌, ◌≡◌, ◌↔◌, none, some}
use cluster_api_provider_kub.Go.{Error, message}
use cluster_api_provider_kub.Platform.{Platform, ExecRequest, exec}
use cluster_api_provider_kub.Utils.Exec.{kind_container_exec}
use cluster_api_provider_kub.Utils.Exec.Outcome.{Asks, Reports, kind_container_exec-outcome}
use cluster_api_provider_kub.Tests.Fixtures.{empty_platform, running_pod}

-- Every command fails.
abbrev failing_platform : Platform
failing_platform = record empty_platform {
  executed =
      λ _ _. record { stdout = ""; stderr = "no such file"; error = some (message "exit 1") };
}

kind_container_exec-outcome_example :
    (r : ExecRequest) × Asks running_pod ("ls" ∷ "/" ∷ []) r
    × ((kind_container_exec failing_platform [] running_pod "ls" ("/" ∷ [])).1 ≡ exec r ∷ [])
    × (((kind_container_exec failing_platform [] running_pod "ls" ("/" ∷ [])).0 ≡ none)
        ↔ ((failing_platform.executed [] r).error ≡ none))
    × ((e : Error)
        → (kind_container_exec failing_platform [] running_pod "ls" ("/" ∷ [])).0 ≡ some e
        → Reports (failing_platform.executed [] r) e)
kind_container_exec-outcome_example =
    kind_container_exec-outcome failing_platform [] running_pod "ls" ("/" ∷ [])
