-- ===== src/Lib.antt =====
-- cluster-api-provider-kubernetes runs the nodes of a Kubernetes cluster as pods of another one. Two
-- controllers reconcile its resources: a KubernetesCluster gets a Service for its API server, and a
-- KubernetesMachine a pod with a container named "kind", whose bootstrap script is made from a
-- cloud-config. The controllers meet only through the objects of the API server; their watches map an
-- object that changed to the resources to reconcile.
--
-- The files, and the code they are about:
--   Prelude      lists, maps and tests that the others share
--   Go           Go's errors and panics; strings, path and base64 (Text, Base64)
--   Kube         the fields of Kubernetes' and Cluster API's objects that the code reads or writes; a
--                field `rest` stands for all others, which are only passed on
--   Api          api/v1alpha3 (V1alpha3), and api/v1alpha2 with its conversions (V1alpha2); the types
--                of both in the scheme (Registration)
--   Platform     the API server and the libraries: one record, `Platform`
--   Utils        pkg/utils/qos.go (Qos), pkg/utils/pod.go (PodStatus), pkg/pod/exec.go (Exec)
--   CloudInit    pkg/cloudinit: kindadapter.go (Actions), runcmd.go (RunCmd), writefiles.go
--                (WriteFiles), unknown.go (Unknown)
--   Controllers  controllers/kubernetesmachine_controller.go and kubernetesmachine_utils.go (Machine),
--                controllers/kubernetescluster_controller.go (Cluster), the watches of both and their
--                registration (Watches)
--                In Machine, Calls is about the calls of a reconciliation and their order, Lifecycle
--                about a machine's stages, Convergence about repeated runs, Returns about
--                panics, and Release about a run on a deleted machine
--   Process      main.go: the flags, and what is set up before the manager starts
--   Tests        objects and a platform to run the definitions on, and the theorems applied to them
--
-- State and operations. A reconciliation is a function of the `Platform`, of the log of the calls
-- made so far and of its object; it gives a `Run`: the object as it stands, the longer log and what
-- is returned, where a run-time panic is a value. A definition has the name of the Go function it
-- translates, in this language's spelling (`reconcileNormal` is `reconcile_normal`); the steps
-- between its early returns have names of their own, in the order of the source. The objects that
-- Go mutates through pointers are passed on from step to step.
--
-- What is not under the repository is a parameter. An answer of the API server is any function of
-- the log and of the call's arguments, so theorems over all platforms hold for any order of events
-- and any state that others leave. Helpers of apimachinery, controller-runtime and Cluster API are
-- fields of `Platform`, the parsers of YAML, JSON and gzip fields of `Parsers`. Platform.Lawful
-- states what the helpers are documented to do (Controllers.Machine.Secrets, what `Create` does
-- with owner references; CloudInit.UnknownKeys, with what no JSON text begins), and Tests.Laws has
-- a platform that does it. An API server and a kubelet that work are the record `Works` of
-- Controllers.Machine.Convergence.Provisioned, and one that keeps what is patched the record
-- `Attached` of Controllers.Machine.Convergence.Whole; Tests.Settling has a platform that is both.
-- For clusters these are `Serves` and `ClusterAttached` of Controllers.Cluster.Served, with the
-- platform of Tests.Provisioning. Text is bytes where the code looks into it. The iteration order
-- of a Go map is a parameter.
--
-- Bounds. Ports are int32 in the source and are only compared and copied; durations are
-- nanoseconds. The loops are recursions on their lists, and no function takes fuel. A line of more
-- than 64 KiB stops the scan of a cloud-config with an error, as in bufio.
--
-- Not modelled: log output, what contexts do, generated deep copies, kubeconfigSecretName, which
-- nothing calls, and the tests under e2e.
pub mod Prelude
pub mod Go
pub mod CloudInit
pub mod Kube
pub mod Api
pub mod Platform
pub mod Utils
pub mod Controllers
pub mod Process
pub mod Tests
