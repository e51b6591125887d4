-- ===== src/Controllers/Machine/Calls/Container.antt =====
-- The calls from the check of the kind container on.
use cluster_api_provider_kub.Prelude.{
  none, some, [], ◌∷◌, ◌≡◌, refl, true, false, not, arith, Option, Option-cases, String, List,
  if◌then◌else◌, Bool, inl, inr, ◌<>◌,
}
use cluster_api_provider_kub.Go.{Result, ok, err, Error}
use cluster_api_provider_kub.Kube.{Cluster, Pod, ContainerStatus, Labels}
use cluster_api_provider_kub.Api.V1alpha3.{KubernetesMachine}
use cluster_api_provider_kub.Platform.{Platform, Log, Call, exec, list_pods, delete_pod}
use cluster_api_provider_kub.Controllers.Common.{Run}
use cluster_api_provider_kub.Controllers.Machine.Names.{
  cluster_label_name, machine_control_plane_label_name, machine_pod_node_name,
  get_provider_id_from_pod,
}
use cluster_api_provider_kub.Utils.Exec.{
  kind_container_name, kind_container_request, kind_container_exec,
}
use cluster_api_provider_kub.Utils.PodStatus.{get_container_status}
use cluster_api_provider_kub.Controllers.Machine.Normal.{
  mark_ready, after_node, after_bootstrap, check_container, with_status, container_terminated,
  set_node_provider_id, patch_first, patch_node, enable_bootstrap_process,
}

-- What is known of the log that a run leaves.
pub data Leaves (P : Log → Type 0) (r : Run KubernetesMachine) : Type 0 where
  leaves : P r.log → Leaves P r

pub left : {P : Log → Type 0} (r : Run KubernetesMachine) → Leaves P r → P r.log
left r (leaves h) = h

pub Leaves-if :
    {P : Log → Type 0} (b : Bool) (x y : Run KubernetesMachine)
    → (b ≡ true → Leaves P x)
    → (b ≡ false → Leaves P y)
    → Leaves P (if b then x else y)
Leaves-if true x y hx hy = hx refl
Leaves-if false x y hx hy = hy refl

-- The calls that install the bootstrap scripts in the machine's pod, and that look for the pods of the
-- cluster's control plane.
abbrev pub install_call : Pod → Call
install_call pod = exec (kind_container_request pod "/opt/cloud-init/install.sh" [])

abbrev pub control_plane_labels : Cluster → Labels
control_plane_labels cluster =
    (cluster_label_name, cluster.meta.name) ∷ (machine_control_plane_label_name, "") ∷ []

abbrev pub list_call : Cluster → Call
list_call cluster = list_pods cluster.meta.namespace (control_plane_labels cluster)

-- The command that sets a pod's provider ID on its node.
abbrev pub node_command : Pod → List String
node_command pod =
    "--kubeconfig"
    ∷ "/etc/kubernetes/admin.conf"
    ∷ "patch"
    ∷ "node"
    ∷ machine_pod_node_name pod
    ∷ "--patch"
    ∷ ("{\"spec\": {\"providerID\": \"" <> get_provider_id_from_pod pod <> "\"}}")
    ∷ []

module _ (p : Platform) (cluster : Cluster) (k : KubernetesMachine) (pod : Pod) (log : Log) where
  abbrev kind_status : Option ContainerStatus
  kind_status = get_container_status pod.status.container_statuses kind_container_name

  -- The pod's kind container has that status, and is running.
  abbrev IsRunning : ContainerStatus → Type 0
  IsRunning cs = (kind_status ≡ some cs) × (cs.state.terminated ≡ none) × (cs.state.running ≡ true)

  -- The install script gave no error, and the container is ready.
  abbrev IsInstalled : ContainerStatus → Type 0
  IsInstalled cs = ((enable_bootstrap_process p log pod).0 ≡ none) × (cs.ready ≡ true)

  -- The log grows by nothing; by the deletion of the pod, where its kind container has terminated and
  -- it may be made again; or, where that container is running, by a first part of: the install script;
  -- if it gave no error and the container is ready, the list of control plane pods; and, if there was
  -- an answer, in the first of them the command that sets the machine's provider ID on its node.
  pub data ContainerCalls (log' : Log) : Type 0 where
    waits : log' ≡ log → ContainerCalls log'
    deletes :
        (cs : ContainerStatus) (reason : String)
        → kind_status ≡ some cs
        → cs.state.terminated ≡ some reason
        → k.spec.allow_recreation ≡ true
        → log' ≡ delete_pod pod ∷ log
        → ContainerCalls log'
    installs :
        (cs : ContainerStatus) → IsRunning cs → log' ≡ install_call pod ∷ log → ContainerCalls log'
    lists :
        (cs : ContainerStatus)
        → IsRunning cs
        → IsInstalled cs
        → log' ≡ list_call cluster ∷ install_call pod ∷ log
        → ContainerCalls log'
    patches :
        (cs : ContainerStatus) (controller_pod : Pod) (others : List Pod)
        → IsRunning cs
        → IsInstalled cs
        → p.pods (install_call pod ∷ log) cluster.meta.namespace (control_plane_labels cluster)
          ≡ ok (controller_pod ∷ others)
        → log'
          ≡ exec (kind_container_request controller_pod "kubectl" (node_command pod))
            ∷ list_call cluster
            ∷ install_call pod
            ∷ log
        → ContainerCalls log'

  log-mark_ready : (l : Log) → (mark_ready p k l pod).log ≡ l
  unfolding mark_ready
  log-mark_ready l = ground arith

  log-after_node : (r : Option Error × Log) → (after_node p k pod r).log ≡ r.1
  unfolding after_node
  log-after_node (none, l) = log-mark_ready l
  log-after_node (some e, l) = refl

  node-ContainerCalls :
      (cs : ContainerStatus)
      → IsRunning cs
      → IsInstalled cs
      → (r : Result (List Pod))
      → p.pods (install_call pod ∷ log) cluster.meta.namespace (control_plane_labels cluster) ≡ r
      → ContainerCalls (patch_first p (list_call cluster ∷ install_call pod ∷ log) pod r).1
  unfolding patch_first patch_node kind_container_exec
  node-ContainerCalls cs run ready (err e) q = lists cs run ready refl
  node-ContainerCalls cs run ready (ok []) q = lists cs run ready refl
  node-ContainerCalls cs run ready (ok (c ∷ others)) q = patches cs c others run ready q refl

  after_bootstrap-Leaves :
      (cs : ContainerStatus)
      → IsRunning cs
      → (e : Option Error) → (enable_bootstrap_process p log pod).0 ≡ e
      → Leaves ContainerCalls (after_bootstrap p cluster k pod cs (e, install_call pod ∷ log))
  unfolding after_bootstrap set_node_provider_id
  after_bootstrap-Leaves cs run (some e) q = leaves (installs cs run refl)
  after_bootstrap-Leaves cs run none q =
      Leaves-if (not cs.ready) _ _ (λ _. leaves (installs cs run refl))
        λ ready. leaves (
          rw (log-after_node (set_node_provider_id p (install_call pod ∷ log) cluster pod)) (
            node-ContainerCalls cs run (q, ground (arith, ready))
              (p.pods (install_call pod ∷ log) cluster.meta.namespace
                (control_plane_labels cluster))
              refl))

  pub check_container-Leaves : Leaves ContainerCalls (check_container p cluster k log pod)
  unfolding check_container with_status container_terminated enable_bootstrap_process
      kind_container_exec
  check_container-Leaves =
      elim (Option-cases (get_container_status pod.status.container_statuses kind_container_name)) [
        | inl e ↦ rw (e, check_container) (leaves (waits refl))
        | inr (cs, e) ↦
            rw (e, check_container)
              (elim (Option-cases cs.state.terminated) [
                | inl t ↦
                    rw (t, with_status)
                      (Leaves-if (not cs.state.running) _ _ (λ _. leaves (waits refl))
                        (λ running.
                          after_bootstrap-Leaves cs (e, t, ground (arith, running)) _ refl))
                | inr (reason, t) ↦
                    rw (t, with_status)
                      (Leaves-if k.spec.allow_recreation _ _
                        (λ a. leaves (deletes cs reason e t a refl)) (λ _. leaves (waits refl)))
              ])
      ]
