-- ===== src/Controllers/Cluster/Settled.antt =====
-- What `reconcileNormal` does before and after the Service of a KubernetesCluster is there.
use cluster_api_provider_kub.Prelude.{
  ℕ, true, false, ◌≡◌, refl, ◌∷◌, some, ap, ◌∙◌, String, sym, eq_refl, arith,
}
use cluster_api_provider_kub.Go.{ok, Error}
use cluster_api_provider_kub.Kube.{Cluster, Service}
use cluster_api_provider_kub.Api.V1alpha3.{KubernetesCluster, is_zero}
use cluster_api_provider_kub.Platform.{Platform, Log}
use cluster_api_provider_kub.Platform.Lawful.{PortLaw, FreshLaw, ControllerLaw}
use cluster_api_provider_kub.Controllers.Cluster.{
  cluster_kind, create_owned, reconcile_normal, reconcile_phase, set_cluster_ready,
  default_service_type, service_answer, add_cluster_finalizers, service_type_cluster_ip,
  service_key, with_service, service_host, has_failed, service_port, stop, get_service,
  check_endpoint, err, is_not_found, ObjectMeta, create_cluster_service, unowned_service,
  create_service, stop_with, cluster_service_name, none,
}
use cluster_api_provider_kub.Controllers.Cluster.Creation.{
  port-served, service_port-unowned_service, Served, host-served, endpoint-served,
  with_own_service_host, set_endpoint-served, check_endpoint_same,
}
use cluster_api_provider_kub.Controllers.Machine.Normal.{is_controlled_by}
use cluster_api_provider_kub.Controllers.Cluster.Served.{Serves}
use cluster_api_provider_kub.Controllers.Machine.Calls.Grows.{Grows, Grows-trans}

-- The cluster's Service has been created and is found from then on.
pub record Serving (p : Platform) (cluster : Cluster) (k : KubernetesCluster) (log : Log)
    : Type 0 where
  pub service : Service
  pub lasting :
      (later : Log) → Grows log later → p.service later (service_key cluster k) ≡ ok service
  pub controlled : is_controlled_by p service.meta k.meta ≡ true
  pub host : String
  pub has_host : service_host service ≡ some host
  pub same :
      is_zero k.spec.control_plane_endpoint ≡ false
      → k.spec.control_plane_endpoint ≡ record { host = host; port = service_port p service }
  pub usable : is_zero (record { host = host; port = service_port p service }) ≡ false
  pub typed : k.spec.control_plane_service_type ≡ service_type_cluster_ip
  pub sound : has_failed k ≡ false

module _ (p : Platform) (cluster : Cluster) where
  default_service_type_set :
      (k : KubernetesCluster)
      → k.spec.control_plane_service_type ≡ service_type_cluster_ip
      → default_service_type k ≡ k
  unfolding default_service_type
  default_service_type_set k t = rw t refl

  -- The cluster after a run that finds the Service.
  abbrev pub served_object : KubernetesCluster → String → ℕ → KubernetesCluster
  served_object k host' port' = set_cluster_ready (record (add_cluster_finalizers p k) {
    spec = record (k.spec) { control_plane_endpoint = record { host = host'; port = port' } };
  })

  pub reconcile_normal-served :
      (k : KubernetesCluster) (log later : Log) (s : Serving p cluster k log)
      → Grows log later
      → reconcile_normal p cluster (default_service_type k) later
        ≡ stop
            (served_object k s.host (service_port p s.service))
            (get_service (service_key cluster k) ∷ later)
  unfolding reconcile_normal service_answer with_service add_cluster_finalizers service_key
      is_controlled_by
  reconcile_normal-served k log later s g =
      let k' = add_cluster_finalizers p k in
      let q = service_port p s.service in
      ap (λ (x : KubernetesCluster). reconcile_normal p cluster x later)
        (default_service_type_set k s.typed)
      ∙ rw (s.lasting later g, service_answer, s.controlled)
          (with_own_service_host p k' (get_service (service_key cluster k) ∷ later) s.service s.host
              s.has_host
            ∙ ap
                (λ (x : KubernetesCluster).
                  check_endpoint s.host q x (get_service (service_key cluster k) ∷ later))
                (set_endpoint-served s.host q k' s.same)
            ∙ check_endpoint_same s.host q _ (get_service (service_key cluster k) ∷ later) refl)

  pub Serving-later :
      (k : KubernetesCluster) (log later : Log)
      → Grows log later
      → Serving p cluster k log
      → Serving p cluster k later
  Serving-later k log later g s = record {
    service = s.service;
    lasting = λ l h. s.lasting l (Grows-trans g h);
    controlled = s.controlled;
    host = s.host;
    has_host = s.has_host;
    same = s.same;
    usable = s.usable;
    typed = s.typed;
    sound = s.sound;
  }

  pub Serving-served :
      (k : KubernetesCluster) (log : Log) (s : Serving p cluster k log)
      → let k' = reconcile_phase (served_object k s.host (service_port p s.service)) in
        (later : Log) → Grows log later → Serving p cluster k' later
  unfolding reconcile_phase set_cluster_ready add_cluster_finalizers service_key is_controlled_by
      has_failed
  Serving-served k log s later g = record {
    service = s.service;
    lasting = λ l h. s.lasting l (Grows-trans g h);
    controlled = s.controlled;
    host = s.host;
    has_host = s.has_host;
    same = λ _. refl;
    usable = s.usable;
    typed = s.typed;
    sound = s.sound;
  }

module _ (p : Platform) (serves : Serves p) (port : PortLaw p) (fresh : FreshLaw p)
    (controller : ControllerLaw p) (cluster : Cluster) (k : KubernetesCluster) (log : Log)
    (e : Error) (gone : p.service log (service_key cluster k) ≡ err e) (q : is_not_found e ≡ true)
    (here : cluster.meta.namespace ≡ k.meta.namespace)
    (typed : k.spec.control_plane_service_type ≡ service_type_cluster_ip)
    (sound : has_failed k ≡ false) where
  abbrev kept : KubernetesCluster
  kept = add_cluster_finalizers p k

  -- The Service that is sent.
  pub record Sent : Type 0 where
    pub meta' : ObjectMeta
    pub set :
        p.set_controller_reference cluster_kind kept.meta (unowned_service cluster kept).meta
        ≡ ok meta'
    pub controlled : is_controlled_by p meta' kept.meta ≡ true
    pub same_name : meta'.name ≡ cluster_service_name cluster
    pub same_namespace : meta'.namespace ≡ k.meta.namespace

  pub the_service : Sent
  unfolding unowned_service add_cluster_finalizers is_controlled_by cluster_service_name
  the_service =
      let unowned = unowned_service cluster kept in
      let (m, set) = fresh.set_fresh cluster_kind kept.meta unowned.meta refl here in
      let (ref, set_to, uid, _, _, _) =
        controller.controller_set cluster_kind kept.meta unowned.meta m set in
      let only = controller.only_references cluster_kind kept.meta unowned.meta m set in
      record {
        meta' = m;
        set = set;
        controlled = rw (set_to, is_controlled_by, uid, eq_refl k.meta.uid) refl;
        same_name = ap (λ (x : ObjectMeta). x.name) only;
        same_namespace = ap (λ (x : ObjectMeta). x.namespace) only ∙ here;
      }

  abbrev sent : Service
  sent = record (unowned_service cluster kept) { meta = the_service.meta' }

  abbrev created_log : Log
  created_log = create_service sent ∷ get_service (service_key cluster k) ∷ log

  pub reconcile_normal-created : reconcile_normal p cluster k log ≡ stop_with kept created_log none
  unfolding reconcile_normal service_answer create_cluster_service create_owned service_key
      add_cluster_finalizers
  reconcile_normal-created =
      rw
        (
          gone,
          service_answer,
          q,
          the_service.set,
          create_owned,
          serves.created (get_service (service_key cluster k) ∷ log) sent,
        )
        refl

  usable :
      (served : Service)
      → Served sent served
      → is_zero (record { host = served.spec.cluster_ip; port = service_port p served }) ≡ false
  unfolding is_zero add_cluster_finalizers
  usable served as_sent = ground (
    arith,
    as_sent.given_ip,
    port-served p port cluster kept sent served the_service.meta' typed refl as_sent,
    service_port-unowned_service p port cluster kept,
  )

  pub Serving-created : Serving p cluster (reconcile_phase kept) created_log
  unfolding reconcile_phase add_cluster_finalizers service_key is_controlled_by has_failed
  Serving-created =
      let (served, as_sent, found) =
        serves.found_later log (service_key cluster k) sent e gone q
          (sym the_service.same_namespace) (sym the_service.same_name) in
      record {
        service = served;
        lasting = found;
        controlled = rw as_sent.meta the_service.controlled;
        host = served.spec.cluster_ip;
        has_host = host-served p port cluster kept sent served the_service.meta' typed refl as_sent;
        same = endpoint-served p port cluster kept sent served the_service.meta' typed refl as_sent;
        usable = usable served as_sent;
        typed = typed;
        sound = sound;
      }
