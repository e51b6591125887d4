-- ===== src/Controllers/Machine/Convergence/Built.antt =====
-- The objects that a machine is made of can be built where their templates have no owner.
use cluster_api_provider_kub.Prelude.{
  ◌≡◌, none, [], All, List, ◌∷◌, refl, ℕ, Bool-cases, inl, inr, ◌∙◌, true, ap, eq_refl,
}
use cluster_api_provider_kub.Prelude.Maps.{insert}
use cluster_api_provider_kub.Go.{ok}
use cluster_api_provider_kub.Kube.{ObjectMeta, PersistentVolumeClaim, Pod, Cluster, Machine}
use cluster_api_provider_kub.Api.V1alpha3.{KubernetesMachine}
use cluster_api_provider_kub.Platform.{Platform}
use cluster_api_provider_kub.Platform.Lawful.{FreshLaw, ControllerLaw}
use cluster_api_provider_kub.Controllers.Machine.Container.{
  with_containers, set_kind_container_base, update_at,
}
use cluster_api_provider_kub.Controllers.Machine.Names.{machine_kind, machine_pod_name}
use cluster_api_provider_kub.Controllers.Machine.Claims.{
  get_persistent_volume_claims, claims_from, insert_owned, Claims, named_claim, update_storage,
  storage_volumes,
}
use cluster_api_provider_kub.Controllers.Machine.MachinePod.{
  worker_pod, control_plane_pod, set_control_plane_label, get_machine_pod_base, add_etcd_volume,
  machine_pod, set_control_plane_container, unowned_pod_base,
}
use cluster_api_provider_kub.Controllers.Machine.Normal.{is_controlled_by}
use cluster_api_provider_kub.Controllers.Machine.Secrets.{CreateLaw}

abbrev pub Unowned : PersistentVolumeClaim → Type 0
Unowned template = template.meta.owner_references ≡ []

-- A pod has the name, the namespace and the controller of another object's metadata, and is not being
-- deleted.
pub record Bears (m : ObjectMeta) (pod : Pod) : Type 0 where
  pub same_name : pod.meta.name ≡ m.name
  pub same_namespace : pod.meta.namespace ≡ m.namespace
  pub same_references : pod.meta.owner_references ≡ m.owner_references
  pub undeleted : pod.meta.deletion_timestamp ≡ none

module _ (p : Platform) (fresh : FreshLaw p) (k : KubernetesMachine) where
  claims_from_ok :
      (ts : List PersistentVolumeClaim) (m : Claims)
      → All Unowned ts
      → (m' : Claims) × (claims_from p k ts m ≡ ok m')
  unfolding claims_from insert_owned named_claim
  claims_from_ok [] m all = (m, refl)
  claims_from_ok (t ∷ ts) m (unowned, all) =
      let (owned, q) = fresh.set_fresh machine_kind k.meta (named_claim k t).meta unowned refl in
      let (m', e) =
        claims_from_ok ts (insert t.meta.name (record (named_claim k t) { meta = owned }) m) all in
      (m', rw (q, claims_from, insert_owned) e)

  pub get_persistent_volume_claims_ok :
      All Unowned k.spec.volume_claim_templates
      → (m' : Claims) × (get_persistent_volume_claims p k ≡ ok m')
  unfolding get_persistent_volume_claims
  get_persistent_volume_claims_ok all = claims_from_ok k.spec.volume_claim_templates [] all

  module _ (cluster : Cluster) (machine : Machine) where
    -- A pod with its volumes and the storage of the machine.
    abbrev stored : Claims → Pod → Pod
    stored claims pod = record pod {
      spec = record (pod.spec) { volumes = storage_volumes p claims pod.spec.volumes };
    }

    worker_pod_ok :
        (base : Pod) (claims : Claims)
        → get_machine_pod_base p cluster k ≡ ok base
        → get_persistent_volume_claims p k ≡ ok claims
        → worker_pod p cluster machine k
          ≡ ok (set_kind_container_base p machine (stored claims base)).0
    unfolding worker_pod update_storage
    worker_pod_ok base claims b c = rw (b, worker_pod, c, update_storage) refl

    abbrev labelled : Claims → Pod → Pod × ℕ
    labelled claims base =
        set_kind_container_base p machine (stored claims (set_control_plane_label base))

    control_plane_pod_ok :
        (base : Pod) (claims : Claims)
        → get_machine_pod_base p cluster k ≡ ok base
        → get_persistent_volume_claims p k ≡ ok claims
        → control_plane_pod p cluster machine k
          ≡ ok (
              with_containers (add_etcd_volume (labelled claims base).0) (
                update_at
                  (labelled claims base).1
                  (set_control_plane_container cluster)
                  (labelled claims base).0.spec.containers))
    unfolding control_plane_pod update_storage set_control_plane_label
    control_plane_pod_ok base claims b c = rw (b, control_plane_pod, c, update_storage) refl

    machine_pod_ok :
        (base : Pod) (claims : Claims)
        → base.meta.deletion_timestamp ≡ none
        → get_machine_pod_base p cluster k ≡ ok base
        → get_persistent_volume_claims p k ≡ ok claims
        → (pod : Pod) × (machine_pod p cluster machine k ≡ ok pod) × Bears base.meta pod
    unfolding machine_pod set_kind_container_base with_containers set_control_plane_label
        add_etcd_volume
    machine_pod_ok base claims d b c = elim (Bool-cases (p.is_control_plane_machine machine)) [
      | inl h ↦ (
        _,
        (let q : machine_pod p cluster machine k ≡ control_plane_pod p cluster machine k =
              rw h refl in
            q ∙ control_plane_pod_ok base claims b c),
        record { same_name = refl; same_namespace = refl; same_references = refl; undeleted = d },
      )
      | inr h ↦ (
        _,
        (let q : machine_pod p cluster machine k ≡ worker_pod p cluster machine k = rw h refl in
            q ∙ worker_pod_ok base claims b c),
        record { same_name = refl; same_namespace = refl; same_references = refl; undeleted = d },
      )
    ]

    -- The pod is built with the machine as its controller, where the cluster is in the machine's
    -- namespace.
    pub machine_pod-built :
        ControllerLaw p
        → CreateLaw p
        → All Unowned k.spec.volume_claim_templates
        → cluster.meta.namespace ≡ k.meta.namespace
        → (pod : Pod) × (machine_pod p cluster machine k ≡ ok pod)
          × (pod.meta.name ≡ k.meta.name)
          × (pod.meta.namespace ≡ k.meta.namespace)
          × (pod.meta.deletion_timestamp ≡ none)
          × (is_controlled_by p pod.meta k.meta ≡ true)
    unfolding get_machine_pod_base unowned_pod_base is_controlled_by machine_pod_name
    machine_pod-built controller create unowned ns =
        let bare = (unowned_pod_base cluster k).meta in
        let (owned, q) = fresh.set_fresh machine_kind k.meta bare refl ns in
        let (claims, c) = get_persistent_volume_claims_ok unowned in
        let kept = controller.only_references machine_kind k.meta bare owned q in
        let (ref, found, same, _, _, _) =
          controller.controller_set machine_kind k.meta bare owned q in
        let base = record (unowned_pod_base cluster k) { meta = owned } in
        let b : get_machine_pod_base p cluster k ≡ ok base = rw (q, get_machine_pod_base) refl in
        let (pod, e, bears) =
          machine_pod_ok base claims (ap (λ (m : ObjectMeta). m.deletion_timestamp) kept) b c in
        (
          pod,
          e,
          bears.same_name ∙ ap (λ (m : ObjectMeta). m.name) kept,
          bears.same_namespace ∙ ap (λ (m : ObjectMeta). m.namespace) kept ∙ ns,
          bears.undeleted,
          rw
              (
                create.controller_of_references pod.meta owned bears.same_references,
                is_controlled_by,
                found,
                same,
              )
              (eq_refl k.meta.uid),
        )
