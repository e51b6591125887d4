-- ===== src/Controllers/Machine/Convergence/Provisioned.antt =====
-- The provisioning of a machine's pod succeeds on a platform that works.
use cluster_api_provider_kub.Prelude.{
  Option, ◌≡◌, [], some, inl, none, true, ◌⊎◌, inr, String, List, ◌∷◌, refl,
}
use cluster_api_provider_kub.Go.{Error, ok, err}
use cluster_api_provider_kub.Kube.{
  Pod, Cluster, ContainerStatus, NamespacedName, PersistentVolumeClaim, Secret, Labels,
}
use cluster_api_provider_kub.Api.V1alpha3.{KubernetesMachine}
use cluster_api_provider_kub.Platform.{Platform, Log, ExecRequest, create_pod, get_pod}
use cluster_api_provider_kub.Utils.Exec.{kind_container_exec, kind_container_name, exec_error}
use cluster_api_provider_kub.Utils.PodStatus.{get_container_status, is_pod_ready}
use cluster_api_provider_kub.Controllers.Common.{
  Run, returned, empty_result, is_not_found, is_already_exists,
}
use cluster_api_provider_kub.Controllers.Machine.Normal.{
  after_bootstrap, set_node_provider_id, check_container, after_node, patch_first, mark_ready,
  with_status, set_ready, enable_bootstrap_process, patch_node,
}
use cluster_api_provider_kub.Controllers.Machine.Claims.{
  create_claims, create_persistent_volume_claims, create_missing, create_claim, aggregate, Claims,
  get_persistent_volume_claims,
}
use cluster_api_provider_kub.Controllers.Machine.Calls.Grows.{Grows}
use cluster_api_provider_kub.Controllers.Machine.Calls.Container.{control_plane_labels}

-- The kind container of a pod runs and is ready, and so is the pod.
pub record IsLive (pod : Pod) : Type 0 where
  pub container : ContainerStatus
  pub found :
      get_container_status pod.status.container_statuses kind_container_name ≡ some container
  pub alive : container.state.terminated ≡ none
  pub running : container.state.running ≡ true
  pub container_ready : container.ready ≡ true
  pub pod_ready : is_pod_ready pod ≡ true

abbrev pub key_of : Pod → NamespacedName
key_of pod = record { namespace = pod.meta.namespace; name = pod.meta.name }

-- An API server and a kubelet that work: claims, Secrets and pods can be created, every command in a
-- container succeeds, the cluster has a control plane pod, and a pod that was created right after a
-- lookup said that there is none of its name is found from then on, with its owners, is not deleted,
-- and runs.
pub record Works (p : Platform) : Type 0 where
  pub claims_looked_up :
      (log : Log) (name : NamespacedName)
      → ((claim : PersistentVolumeClaim) × (p.persistent_volume_claim log name ≡ ok claim))
        ⊎ ((e : Error) × (p.persistent_volume_claim log name ≡ err e) × (is_not_found e ≡ true))
  pub claims_created :
      (log : Log) (claim : PersistentVolumeClaim)
      → p.persistent_volume_claim_created log claim ≡ none
  pub secrets_created :
      (log : Log) (s : Secret)
      → ((p.secret_created log s).1 ≡ none)
        ⊎ ((e : Error) × ((p.secret_created log s).1 ≡ some e) × (is_already_exists e ≡ true))
  pub pods_created : (log : Log) (pod : Pod) → p.pod_created log pod ≡ none
  pub commands_run : (log : Log) (request : ExecRequest) → (p.executed log request).error ≡ none
  pub controllers_listed :
      (log : Log) (namespace' : String) (labels : Labels)
      → (controller_pod : Pod) × (others : List Pod) × (p.pods log namespace' labels
          ≡ ok (controller_pod ∷ others))
  pub pods_started :
      (log later : Log) (pod : Pod) (e : Error)
      → p.pod log (key_of pod) ≡ err e
      → is_not_found e ≡ true
      → Grows (create_pod pod ∷ get_pod (key_of pod) ∷ log) later
      → (live : Pod) × (p.pod later (key_of pod) ≡ ok live)
        × (live.meta.owner_references ≡ pod.meta.owner_references)
        × (live.meta.deletion_timestamp ≡ pod.meta.deletion_timestamp)
        × IsLive live

module _ (p : Platform) (works : Works p) where
  module _ (k : KubernetesMachine) where
    create_missing_ok :
        (log : Log) (claim : PersistentVolumeClaim) (name : NamespacedName) (log' : Log)
        → (create_missing p k log' claim (p.persistent_volume_claim log name)).0 ≡ []
    unfolding create_missing
    create_missing_ok log claim name log' = elim (works.claims_looked_up log name) [
      | inl (c, q) ↦ rw (q, create_missing) refl
      | inr (e, q, n) ↦ rw (q, create_missing, n, works.claims_created log' claim) refl
    ]

    create_claim_ok :
        (log : Log) (claim : PersistentVolumeClaim) → (create_claim p k log claim).0 ≡ []
    unfolding create_claim
    create_claim_ok log claim = create_missing_ok log claim _ _

    create_claims_ok : (log : Log) (claims : Claims) → (create_claims p k log claims).0 ≡ []
    unfolding create_claims
    create_claims_ok log [] = refl
    create_claims_ok log ((name, claim) ∷ claims) =
        rw (create_claim_ok log claim) (create_claims_ok (create_claim p k log claim).1 claims)

    pub create_persistent_volume_claims_ok :
        (log : Log) (claims : Claims)
        → get_persistent_volume_claims p k ≡ ok claims
        → (create_persistent_volume_claims p k log).0 ≡ none
    unfolding create_persistent_volume_claims aggregate
    create_persistent_volume_claims_ok log claims q =
        rw (q, create_persistent_volume_claims, create_claims_ok log (p.range_claims claims)) refl

  kind_container_exec_ok :
      (log : Log) (pod : Pod) (cmd : String) (args : List String)
      → (kind_container_exec p log pod cmd args).0 ≡ none
  unfolding kind_container_exec exec_error
  kind_container_exec_ok log pod cmd args = rw (works.commands_run log _) refl

  -- The end of a run that marks its machine ready.
  pub record MarksReady (k : KubernetesMachine) (r : Run KubernetesMachine) : Type 0 where
    pub marked : r.object ≡ set_ready true k
    pub returns : r.exit ≡ returned empty_result none

  module _ (cluster : Cluster) (k : KubernetesMachine) (pod : Pod) (live : IsLive pod) where
    set_node_provider_id_ok : (log : Log) → (set_node_provider_id p log cluster pod).0 ≡ none
    unfolding set_node_provider_id patch_first patch_node
    set_node_provider_id_ok log =
        let (c, cs, q) =
          works.controllers_listed log cluster.meta.namespace (control_plane_labels cluster) in
        rw (q, set_node_provider_id, patch_first) (kind_container_exec_ok _ c _ _)

    after_node_ready : (r : Option Error × Log) → r.0 ≡ none → MarksReady k (after_node p k pod r)
    unfolding after_node mark_ready
    after_node_ready (none, log) q = record {
      marked = rw live.pod_ready refl;
      returns = rw live.pod_ready refl;
    }
    after_node_ready (some e, log) q = absurd (cc q)

    after_bootstrap_ready :
        (cs : ContainerStatus) (r : Option Error × Log)
        → cs.ready ≡ true
        → r.0 ≡ none
        → MarksReady k (after_bootstrap p cluster k pod cs r)
    unfolding after_bootstrap
    after_bootstrap_ready cs (none, log) c q =
        rw c (after_node_ready _ (set_node_provider_id_ok log))
    after_bootstrap_ready cs (some e, log) c q = absurd (cc q)

    pub check_container_ready : (log : Log) → MarksReady k (check_container p cluster k log pod)
    unfolding check_container with_status enable_bootstrap_process
    check_container_ready log =
        rw (live.found, check_container, live.alive, with_status, live.running)
          (after_bootstrap_ready live.container _ live.container_ready
            (kind_container_exec_ok log pod "/opt/cloud-init/install.sh" []))
