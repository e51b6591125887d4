-- ===== src/Utils/Exec/Outcome.antt =====
-- What `kindContainerExec` asks for and returns.
use cluster_api_provider_kub.Prelude.{
  String, List, Option, none, some, ◌∷◌, ◌≡◌, ◌≢◌, ◌↔◌, ◌⊎◌, ◌<>◌, ◌==◌, true, false, refl, inl,
  inr, Bool-cases, eq_iff,
}
use cluster_api_provider_kub.Go.{Error, message}
use cluster_api_provider_kub.Kube.{Pod}
use cluster_api_provider_kub.Platform.{Platform, Log, ExecRequest, ExecResult, exec}
use cluster_api_provider_kub.Utils.Exec.{
  kind_container_exec, kind_container_request, kind_container_name, exec_error, exec_request, run,
  kind_container_cmd, container_command, container_cmder, set_stdout, set_stderr,
}

-- A request for a command in the kind container of a pod, with its output and without input or
-- terminal.
pub record Asks (pod : Pod) (command' : List String) (r : ExecRequest) : Type 0 where
  pub of_pod : (r.pod_name ≡ pod.meta.name) × (r.namespace ≡ pod.meta.namespace)
  pub in_kind : r.options.container ≡ kind_container_name
  pub whole_command : r.options.command ≡ command'
  pub with_output : (r.options.stdout ≡ true) × (r.options.stderr ≡ true)
  pub without_input : (r.options.stdin ≡ false) × (r.input ≡ none)
  pub without_terminal : r.options.tty ≡ false

-- The error that is returned has the error output of the command, or else its output.
abbrev pub Reports : ExecResult → Error → Type 0
Reports result e =
    ((result.stderr ≢ "") × (e ≡ message ("Exec stderr: " <> result.stderr)))
    ⊎ ((result.stderr ≡ "") × (e ≡ message ("Exec stdout: " <> result.stdout)))

exec_error-Reports :
    (result : ExecResult) (failed : Option Error)
    → ((exec_error result failed ≡ none) ↔ (failed ≡ none))
      × ((e : Error) → exec_error result failed ≡ some e → Reports result e)
unfolding exec_error
exec_error-Reports result none = ((λ _. refl, λ _. refl), λ e q. absurd (cc q))
exec_error-Reports result (some x) = elim (Bool-cases (result.stderr == "")) [
  | inl b ↦
      rw b
        ((λ q. absurd (cc q), λ q. absurd (cc q)), λ e q. inr ((eq_iff result.stderr "").0 b, cc q))
  | inr b ↦ rw b (
    (λ q. absurd (cc q), λ q. absurd (cc q)),
    λ e q. inl (λ s. cc ((eq_iff result.stderr "").1 s, b), cc q),
  )
]

-- `kindContainerExec` makes one call, which asks for the whole command in the kind container of the
-- pod, with its output and without input or terminal; it returns an error exactly where the run of
-- the command gave one, and the error has what the command wrote as its error output, or what it
-- wrote as its output where that is empty.
pub kind_container_exec-outcome :
    (p : Platform) (log : Log) (pod : Pod) (cmd : String) (args : List String)
    → (r : ExecRequest) × Asks pod (cmd ∷ args) r
      × ((kind_container_exec p log pod cmd args).1 ≡ exec r ∷ log)
      × (((kind_container_exec p log pod cmd args).0 ≡ none) ↔ ((p.executed log r).error ≡ none))
      × ((e : Error)
          → (kind_container_exec p log pod cmd args).0 ≡ some e
          → Reports (p.executed log r) e)
unfolding kind_container_exec kind_container_request kind_container_cmd exec_request run
    container_command container_cmder set_stdout set_stderr
kind_container_exec-outcome p log pod cmd args =
    let r = kind_container_request pod cmd args in
    let (fails, reports) = exec_error-Reports (p.executed log r) (p.executed log r).error in
    (
      r,
      record {
        of_pod = (refl, refl);
        in_kind = refl;
        whole_command = refl;
        with_output = (refl, refl);
        without_input = (refl, refl);
        without_terminal = refl;
      },
      refl,
      fails,
      reports,
    )
