-- ===== src/Controllers/Watches/Requests.antt =====
-- Which requests the maps of the watches enqueue.
use cluster_api_provider_kub.Prelude.{
  [], ◌∷◌, ◌≡◌, refl, String, false, some, List, In, ◌↔◌, inl, inr, arith, ◌≢◌, Bool-cases, ◌==◌,
  eq_iff, ap, sym, ◌∙◌,
}
use cluster_api_provider_kub.Go.{ok}
use cluster_api_provider_kub.Kube.{ObjectMeta, NamespacedName, Machine}
use cluster_api_provider_kub.Api.V1alpha3.{group_version}
use cluster_api_provider_kub.Platform.{Platform}
use cluster_api_provider_kub.Platform.Lawful.{ControllerLaw}
use cluster_api_provider_kub.Controllers.Machine.Names.{machine_kind}
use cluster_api_provider_kub.Controllers.Cluster.{cluster_kind}
use cluster_api_provider_kub.Controllers.Watches.{
  request_of_owner, owner_requests, pod_to_kubernetes_machine, secret_to_kubernetes_machine,
  persistent_volume_claim_to_kubernetes_machine, service_to_kubernetes_cluster, machine_requests,
  OwnerReference,
}

request_of_owner-some :
    (kind namespace : String) (ref : OwnerReference)
    → ref.kind ≡ kind
    → ref.api_version ≡ group_version
    → request_of_owner kind namespace (some ref)
      ≡ record { namespace = namespace; name = ref.name } ∷ []
unfolding request_of_owner
request_of_owner-some kind namespace ref k v =
    ground (arith, eq_iff ref.kind kind, eq_iff ref.api_version group_version)

request_of_owner_other :
    (kind namespace : String) (ref : OwnerReference)
    → (ref.kind == kind) ≡ false
    → request_of_owner kind namespace (some ref) ≡ []
unfolding request_of_owner
request_of_owner_other kind namespace ref k = ground arith

module _ (p : Platform) (law : ControllerLaw p) (owner m m' : ObjectMeta) where
  owner_requests-owned :
      (kind : String)
      → p.set_controller_reference kind owner m ≡ ok m'
      → owner_requests p kind (some m') ≡ record { namespace = m.namespace; name = owner.name } ∷ []
  unfolding owner_requests request_of_owner
  owner_requests-owned kind e =
      let (ref, found, _, k, n, v) = law.controller_set kind owner m m' e in
      let same : m'.namespace ≡ m.namespace =
        ap (λ x. x.namespace) (law.only_references kind owner m m' e) in
      rw (found, sym same, sym n) (request_of_owner-some kind m'.namespace ref k v)

  -- Where setting a controller keeps its law, an event of a pod, of a Secret or of a claim that a
  -- KubernetesMachine has been made the controller of enqueues that machine in the object's
  -- namespace and nothing else, and the map for Services enqueues nothing.
  pub owned-enqueues_machine :
      p.set_controller_reference machine_kind owner m ≡ ok m'
      → (pod_to_kubernetes_machine p (some m')
          ≡ record { namespace = m.namespace; name = owner.name } ∷ [])
        × (secret_to_kubernetes_machine p (some m')
            ≡ record { namespace = m.namespace; name = owner.name } ∷ [])
        × (persistent_volume_claim_to_kubernetes_machine p (some m')
            ≡ record { namespace = m.namespace; name = owner.name } ∷ [])
        × (service_to_kubernetes_cluster p (some m') ≡ [])
  unfolding pod_to_kubernetes_machine secret_to_kubernetes_machine
      persistent_volume_claim_to_kubernetes_machine service_to_kubernetes_cluster owner_requests
      request_of_owner
  owned-enqueues_machine e =
      let there = owner_requests-owned machine_kind e in
      let (ref, found, _, k, _, _) = law.controller_set machine_kind owner m m' e in
      (
        there,
        there,
        there,
        rw found (request_of_owner_other cluster_kind m'.namespace ref (rw k refl)),
      )

-- The requests for the machines of a cluster are those of the machines that have an infrastructure
-- reference, and each has the namespace and the name of the Machine.
pub machine_requests_iff :
    (ms : List Machine) (r : NamespacedName)
    → In r (machine_requests ms) ↔ (
        (m : Machine) × In m ms
        × (m.infrastructure_ref ≢ "")
        × (r ≡ record { namespace = m.meta.namespace; name = m.meta.name }))
unfolding machine_requests
machine_requests_iff [] r = (λ h. absurd h, λ h. absurd h.1)
machine_requests_iff (x ∷ ms) r =
    let (to, from) = machine_requests_iff ms r in
    elim (Bool-cases (x.infrastructure_ref == "")) [
      | inl e ↦ rw e (
        λ h. (let (m, i, n, q) = to h in (m, inr i, n, q)),
        λ (m, i, n, q). elim i [
          | inl same ↦ absurd (n (ap (λ y. y.infrastructure_ref) same ∙ (eq_iff _ _).0 e))
          | inr i' ↦ from (m, i', n, q)
        ],
      )
      | inr e ↦ rw e (
        λ h. elim h [
          | inl q ↦
              (x, inl refl, λ n. absurd (ground (arith, e, eq_iff x.infrastructure_ref "")), q)
          | inr h' ↦ let (m, i, n, q) = to h' in (m, inr i, n, q)
        ],
        λ (m, i, n, q). elim i [
          | inl same ↦
              inl (q ∙ ap (λ y. record { namespace = y.meta.namespace; name = y.meta.name }) same)
          | inr i' ↦ inr (from (m, i', n, q))
        ],
      )
    ]
