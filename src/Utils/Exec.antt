-- ===== src/Utils/Exec.antt =====
-- pkg/pod/exec.go, with `kindContainerExec` of controllers/kubernetesmachine_utils.go.
pub mod Outcome
use cluster_api_provider_kub.Prelude.{
  String, Option, none, some, List, ◌∷◌, Bool, true, false, is_some, if◌then◌else◌, ◌==◌, ◌<>◌,
}
use cluster_api_provider_kub.Go.{Error, message}
use cluster_api_provider_kub.Kube.{Pod}
use cluster_api_provider_kub.Platform.{Platform, ExecRequest, ExecResult, exec, Log}

-- The fields of a `containerCmder`.
pub record ContainerCmder : Type 0 where
  pub pod_name : String
  pub namespace : String
  pub container_name : String

-- `ContainerCmder`
unfoldable pub container_cmder : String → String → String → ContainerCmder
container_cmder pod_name' namespace' container_name' = record {
  pod_name = pod_name';
  namespace = namespace';
  container_name = container_name';
}

-- The fields of a `containerCmd`. A reader is what it yields, and a writer is there or not: what is
-- written to it is in the result of `Run`. The context is never read.
pub record ContainerCmd : Type 0 where
  pub pod_name : String
  pub namespace : String
  pub container_name : String
  pub command : List String
  pub stdin : Option String
  pub stdout : Bool
  pub stderr : Bool
  pub has_context : Bool

-- `containerCmder.Command`
unfoldable pub container_command : ContainerCmder → String → List String → ContainerCmd
container_command c cmd args = record {
  pod_name = c.pod_name;
  namespace = c.namespace;
  container_name = c.container_name;
  command = cmd ∷ args;
  stdin = none;
  stdout = false;
  stderr = false;
  has_context = false;
}

-- `containerCmder.CommandContext`
unfoldable pub container_command_context : ContainerCmder → String → List String → ContainerCmd
container_command_context c cmd args = record {
  pod_name = c.pod_name;
  namespace = c.namespace;
  container_name = c.container_name;
  command = cmd ∷ args;
  stdin = none;
  stdout = false;
  stderr = false;
  has_context = true;
}

-- The request of `containerCmd.Run`.
unfoldable pub exec_request : ContainerCmd → ExecRequest
exec_request c = record {
  pod_name = c.pod_name;
  namespace = c.namespace;
  options = record {
    container = c.container_name;
    command = c.command;
    stdin = is_some c.stdin;
    stdout = c.stdout;
    stderr = c.stderr;
    tty = false;
  };
  input = c.stdin;
}

-- `containerCmd.Run`
unfoldable pub run : Platform → Log → ContainerCmd → ExecResult × Log
unfolding exec_request
run p log c = (p.executed log (exec_request c), exec (exec_request c) ∷ log)

-- `containerCmd.SetEnv`, `SetStdin`, `SetStdout` and `SetStderr`.
module _ (c : ContainerCmd) where
  unfoldable pub set_env : List String → ContainerCmd
  set_env env = c

  unfoldable pub set_stdin : String → ContainerCmd
  set_stdin r = record c { stdin = some r }

  unfoldable pub set_stdout : ContainerCmd
  set_stdout = record c { stdout = true }

  unfoldable pub set_stderr : ContainerCmd
  set_stderr = record c { stderr = true }

-- The error that `kindContainerExec` makes of the outcome of `Run`.
unfoldable pub exec_error : ExecResult → Option Error → Option Error
exec_error r none = none
exec_error r (some _) =
    if r.stderr == ""
    then some (message ("Exec stdout: " <> r.stdout))
    else some (message ("Exec stderr: " <> r.stderr))

abbrev pub kind_container_name : String
kind_container_name = "kind"

-- The command of `kindContainerExec`.
unfoldable pub kind_container_cmd : Pod → String → List String → ContainerCmd
unfolding container_cmder container_command set_stdout set_stderr
kind_container_cmd machine_pod cmd args =
    let cmder =
      container_cmder machine_pod.meta.name machine_pod.meta.namespace kind_container_name in
    set_stderr (set_stdout (container_command cmder cmd args))

unfoldable pub kind_container_request : Pod → String → List String → ExecRequest
unfolding exec_request kind_container_cmd
kind_container_request machine_pod cmd args = exec_request (kind_container_cmd machine_pod cmd args)

-- `kindContainerExec`: the error, and the log with the call.
unfoldable pub kind_container_exec :
    Platform → Log → Pod → String → List String → Option Error × Log
unfolding run kind_container_cmd exec_error kind_container_request
kind_container_exec p log machine_pod cmd args =
    let (result, log') = run p log (kind_container_cmd machine_pod cmd args) in
    (exec_error result result.error, log')
