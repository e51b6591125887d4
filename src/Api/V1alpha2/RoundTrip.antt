-- ===== src/Api/V1alpha2/RoundTrip.antt =====
-- What a conversion to the other version and back keeps and loses.
use cluster_api_provider_kub.Prelude.{◌≡◌, refl, [], ◌∷◌, if◌then◌else◌}
use cluster_api_provider_kub.Api.V1alpha3
use cluster_api_provider_kub.Api.V1alpha3.{is_zero}
use cluster_api_provider_kub.Api.V1alpha2.{
  KubernetesClusterPhase, KubernetesMachinePhase, unset, pending, provisioning, provisioned,
  running, failed, deleting, other_phase, cluster_phase_to, cluster_phase_from, machine_phase_to,
  machine_phase_from, KubernetesCluster, KubernetesMachine, KubernetesMachineTemplate,
  cluster_convert_to, cluster_convert_from, machine_convert_to, machine_convert_from,
  template_convert_to, template_convert_from,
}

cluster_phase_from-cluster_phase_to :
    (x : KubernetesClusterPhase) → cluster_phase_from (cluster_phase_to x) ≡ x
unfolding cluster_phase_from cluster_phase_to
cluster_phase_from-cluster_phase_to unset = refl
cluster_phase_from-cluster_phase_to provisioning = refl
cluster_phase_from-cluster_phase_to provisioned = refl
cluster_phase_from-cluster_phase_to failed = refl
cluster_phase_from-cluster_phase_to deleting = refl
cluster_phase_from-cluster_phase_to (other_phase text) = refl

cluster_phase_to-cluster_phase_from :
    (x : V1alpha3.KubernetesClusterPhase) → cluster_phase_to (cluster_phase_from x) ≡ x
unfolding cluster_phase_from cluster_phase_to
cluster_phase_to-cluster_phase_from V1alpha3.KubernetesClusterPhase.unset = refl
cluster_phase_to-cluster_phase_from V1alpha3.KubernetesClusterPhase.provisioning = refl
cluster_phase_to-cluster_phase_from V1alpha3.KubernetesClusterPhase.provisioned = refl
cluster_phase_to-cluster_phase_from V1alpha3.KubernetesClusterPhase.failed = refl
cluster_phase_to-cluster_phase_from V1alpha3.KubernetesClusterPhase.deleting = refl
cluster_phase_to-cluster_phase_from (V1alpha3.KubernetesClusterPhase.other_phase text) = refl

machine_phase_from-machine_phase_to :
    (x : KubernetesMachinePhase) → machine_phase_from (machine_phase_to x) ≡ x
unfolding machine_phase_from machine_phase_to
machine_phase_from-machine_phase_to unset = refl
machine_phase_from-machine_phase_to pending = refl
machine_phase_from-machine_phase_to provisioning = refl
machine_phase_from-machine_phase_to running = refl
machine_phase_from-machine_phase_to failed = refl
machine_phase_from-machine_phase_to deleting = refl
machine_phase_from-machine_phase_to (other_phase text) = refl

machine_phase_to-machine_phase_from :
    (x : V1alpha3.KubernetesMachinePhase) → machine_phase_to (machine_phase_from x) ≡ x
unfolding machine_phase_from machine_phase_to
machine_phase_to-machine_phase_from V1alpha3.KubernetesMachinePhase.unset = refl
machine_phase_to-machine_phase_from V1alpha3.KubernetesMachinePhase.pending = refl
machine_phase_to-machine_phase_from V1alpha3.KubernetesMachinePhase.provisioning = refl
machine_phase_to-machine_phase_from V1alpha3.KubernetesMachinePhase.running = refl
machine_phase_to-machine_phase_from V1alpha3.KubernetesMachinePhase.failed = refl
machine_phase_to-machine_phase_from V1alpha3.KubernetesMachinePhase.deleting = refl
machine_phase_to-machine_phase_from (V1alpha3.KubernetesMachinePhase.other_phase text) = refl

-- A v1alpha2 cluster as it comes back: its list of endpoints is the one endpoint if that is set, and
-- otherwise what the target held.
abbrev pub with_endpoints :
    KubernetesCluster → V1alpha3.KubernetesCluster → KubernetesCluster → KubernetesCluster
with_endpoints spoke d3 d2 = record spoke {
  status = record (spoke.status) {
    api_endpoints =
        if is_zero (cluster_convert_to spoke d3).spec.control_plane_endpoint
        then d2.status.api_endpoints
        else spoke.spec.control_plane_endpoint ∷ [];
  };
}

-- KubernetesClusters.
cluster_round_trip :
    (hub d3 : V1alpha3.KubernetesCluster) (spoke d2 : KubernetesCluster)
    → (cluster_convert_to (cluster_convert_from hub d2) d3 ≡ hub)
      × (cluster_convert_from (cluster_convert_to spoke d3) d2 ≡ with_endpoints spoke d3 d2)
unfolding cluster_convert_to cluster_convert_from
cluster_round_trip hub d3 spoke d2 = (
  rw (cluster_phase_to-cluster_phase_from hub.status.phase) refl,
  rw (cluster_phase_from-cluster_phase_to spoke.status.phase) refl,
)

-- KubernetesMachines and KubernetesMachineTemplates.
machine_round_trip :
    (hub d3 : V1alpha3.KubernetesMachine) (spoke d2 : KubernetesMachine)
    (thub t3 : V1alpha3.KubernetesMachineTemplate) (tspoke t2 : KubernetesMachineTemplate)
    → (machine_convert_to (machine_convert_from hub d2) d3 ≡ hub)
      × (machine_convert_from (machine_convert_to spoke d3) d2 ≡ spoke)
      × (template_convert_to (template_convert_from thub t2) t3 ≡ thub)
      × (template_convert_from (template_convert_to tspoke t3) t2 ≡ tspoke)
unfolding machine_convert_to machine_convert_from template_convert_to template_convert_from
machine_round_trip hub d3 spoke d2 thub t3 tspoke t2 = (
  rw (machine_phase_to-machine_phase_from hub.status.phase) refl,
  rw (machine_phase_from-machine_phase_to spoke.status.phase) refl,
  refl,
  refl,
)

-- Objects of either version that are converted to the other version and back are the same as before,
-- whatever objects the conversions write into: v1alpha3 KubernetesClusters, and KubernetesMachines and
-- KubernetesMachineTemplates of both versions. A v1alpha2 KubernetesCluster keeps every field but its
-- list of endpoints, which is the one endpoint if that is set, and otherwise what the target held.
pub round_trip :
    (chub c3 : V1alpha3.KubernetesCluster) (cspoke c2 : KubernetesCluster)
    (hub d3 : V1alpha3.KubernetesMachine) (spoke d2 : KubernetesMachine)
    (thub t3 : V1alpha3.KubernetesMachineTemplate) (tspoke t2 : KubernetesMachineTemplate)
    → ((cluster_convert_to (cluster_convert_from chub c2) c3 ≡ chub)
        × (cluster_convert_from (cluster_convert_to cspoke c3) c2 ≡ with_endpoints cspoke c3 c2))
      × (machine_convert_to (machine_convert_from hub d2) d3 ≡ hub)
      × (machine_convert_from (machine_convert_to spoke d3) d2 ≡ spoke)
      × (template_convert_to (template_convert_from thub t2) t3 ≡ thub)
      × (template_convert_from (template_convert_to tspoke t3) t2 ≡ tspoke)
round_trip chub c3 cspoke c2 hub d3 spoke d2 thub t3 tspoke t2 =
    let (m, ms, t, ts) = machine_round_trip hub d3 spoke d2 thub t3 tspoke t2 in
    (cluster_round_trip chub c3 cspoke c2, m, ms, t, ts)
