-- ===== src/Controllers/Machine/Convergence/Prepared.antt =====
-- What the rounds of `reconcileNormal` start from.
use cluster_api_provider_kub.Prelude.{true, ◌≡◌, All, none, false, String, some, ◌∷◌}
use cluster_api_provider_kub.Prelude.Maps.{lookup}
use cluster_api_provider_kub.Go.{Error, done, ok, err}
use cluster_api_provider_kub.Go.Text.{Bytes}
use cluster_api_provider_kub.Go.Base64.RoundTrip.{IsByte}
use cluster_api_provider_kub.Kube.{Secret, Cluster, Machine, Pod}
use cluster_api_provider_kub.Api.V1alpha3.{KubernetesMachine}
use cluster_api_provider_kub.CloudInit.Actions.{generate_script}
use cluster_api_provider_kub.Platform.{get_pod, Platform, Log, create_pod}
use cluster_api_provider_kub.Controllers.Common.{is_not_found}
use cluster_api_provider_kub.Controllers.Machine.Normal.{is_controlled_by, has_failed}
use cluster_api_provider_kub.Controllers.Machine.Calls.Grows.{Grows}
use cluster_api_provider_kub.Controllers.Machine.Convergence.Provisioned.{key_of}
use cluster_api_provider_kub.Controllers.Machine.Convergence.Built.{Unowned}

-- What a machine, its Cluster and its Machine need: they stand in one namespace, the templates of the
-- claims have no owner, and the bootstrap data is there, from which a script can be made.
pub record Prepared (p : Platform) (cluster : Cluster) (machine : Machine) (k : KubernetesMachine)
    : Type 0 where
  pub cluster_namespace : cluster.meta.namespace ≡ k.meta.namespace
  pub machine_namespace : machine.meta.namespace ≡ k.meta.namespace
  pub unowned_templates : All Unowned k.spec.volume_claim_templates
  pub sound : has_failed k ≡ false
  pub secret_name : String
  pub named : machine.data_secret_name ≡ some secret_name
  pub secret : Secret
  pub secret_found :
      (log : Log)
      → p.secret log (record { namespace = machine.meta.namespace; name = secret_name }) ≡ ok secret
  pub value : Bytes
  pub valued : lookup "value" secret.contents ≡ some value
  pub bytes : All IsByte value
  pub script : Bytes
  pub scripted : generate_script p.parsers value ≡ done script

-- The machine's pod has been created, by a call after a lookup that found none.
pub record Created (p : Platform) (k : KubernetesMachine) (log : Log) : Type 0 where
  pub pod : Pod
  pub before : Log
  pub error : Error
  pub missing : p.pod before (key_of pod) ≡ err error
  pub not_there : is_not_found error ≡ true
  pub in_log : Grows (create_pod pod ∷ get_pod (key_of pod) ∷ before) log
  pub same_name : pod.meta.name ≡ k.meta.name
  pub same_namespace : pod.meta.namespace ≡ k.meta.namespace
  pub undeleted : pod.meta.deletion_timestamp ≡ none
  pub controlled : is_controlled_by p pod.meta k.meta ≡ true
