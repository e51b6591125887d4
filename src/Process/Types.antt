-- ===== src/Process/Types.antt =====
-- The types that the process sets controllers and webhooks up for are in its scheme.
use cluster_api_provider_kub.Prelude.{
  List, [], ◌∷◌, ◌++◌, All, ◌≡◌, true, In, inl, inr, refl, Option-cases, Bool-cases, nat_eq, String,
  ◌∙◌,
}
use cluster_api_provider_kub.Api.Registration.{
  Schemes, GroupVersionKind, SchemesLaw, scheme_builder, scheme, GroupVersion, registered_clusters,
  registered_templates, registered_machines, v1alpha2, v1alpha3, core_v1, cluster_v1,
}
use cluster_api_provider_kub.Process.{
  watch_on_cluster_paused, get_config, new_core_client, start, Setup, build_controller, Answers,
  Flags, new_cluster_mapper, main, build_webhook, own_kind, attempt, answered, new_manager,
}
use cluster_api_provider_kub.Process.Startup.{
  webhooks_plan, controllers_plan, in_order, plan, main-in_order,
}

-- The types that a call looks up in the scheme.
abbrev pub types_of : Setup → List GroupVersionKind
types_of (build_controller of_type watched) = of_type ∷ watched
types_of (new_cluster_mapper list) = list ∷ []
types_of (build_webhook of_type) = of_type ∷ []
types_of watch_on_cluster_paused = own_kind cluster_v1 "Cluster" ∷ []
types_of get_config = []
types_of new_core_client = []
types_of start = []
types_of (new_manager _) = []

module _ (s : Schemes) (law : SchemesLaw s) where
  abbrev pub Recognized : GroupVersionKind → Type 0
  Recognized k = s.recognizes (scheme s) k ≡ true

  -- The kinds that a builder of this repository has registered.
  abbrev Contains : GroupVersion → String → Type 0
  Contains version kind' = law.contains (scheme_builder s version) kind' ≡ true

  version_of-scheme_builder :
      (version : GroupVersion) → law.version_of (scheme_builder s version) ≡ version
  unfolding scheme_builder
  version_of-scheme_builder version =
      law.version_register _ _
      ∙ law.version_register _ _
      ∙ law.version_register _ _
      ∙ law.version_new version

  scheme_builder_cluster : (version : GroupVersion) → Contains version "KubernetesCluster"
  unfolding scheme_builder registered_clusters
  scheme_builder_cluster version =
      law.register_keeps _ _ _ (law.register_keeps _ _ _ (law.registers _ _ _ (inl refl)))

  scheme_builder_machine : (version : GroupVersion) → Contains version "KubernetesMachine"
  unfolding scheme_builder registered_machines
  scheme_builder_machine version = law.register_keeps _ _ _ (law.registers _ _ _ (inl refl))

  scheme_builder_machines : (version : GroupVersion) → Contains version "KubernetesMachineList"
  unfolding scheme_builder registered_machines
  scheme_builder_machines version = law.register_keeps _ _ _ (law.registers _ _ _ (inr (inl refl)))

  scheme_builder_template : (version : GroupVersion) → Contains version "KubernetesMachineTemplate"
  unfolding scheme_builder registered_templates
  scheme_builder_template version = law.registers _ _ _ (inl refl)

  Recognized-v1alpha3 :
      (kind : String) → Contains v1alpha3 kind → Recognized (own_kind v1alpha3 kind)
  unfolding scheme
  Recognized-v1alpha3 kind c = law.add_keeps _ _ _ (
      rw (version_of-scheme_builder v1alpha3) at (
        law.adds (scheme_builder s v1alpha3) (s.add_cluster_api (s.add_client_go s.new_scheme)) kind
          c))

  Recognized-v1alpha2 :
      (kind : String) → Contains v1alpha2 kind → Recognized (own_kind v1alpha2 kind)
  unfolding scheme
  Recognized-v1alpha2 kind c = rw (version_of-scheme_builder v1alpha2) at (
      law.adds (scheme_builder s v1alpha2)
        (s.add_to_scheme (scheme_builder s v1alpha3)
          (s.add_cluster_api (s.add_client_go s.new_scheme)))
        kind c)

  Recognized-core :
      (kind : String)
      → In kind ("Pod" ∷ "Secret" ∷ "PersistentVolumeClaim" ∷ "Service" ∷ [])
      → Recognized (own_kind core_v1 kind)
  unfolding scheme
  Recognized-core kind i =
      law.add_keeps _ _ _
        (law.add_keeps _ _ _ (law.cluster_api_keeps _ _ (law.adds_client_go _ kind i)))

  Recognized-cluster_api :
      (kind : String) → In kind ("Cluster" ∷ "Machine" ∷ []) → Recognized (own_kind cluster_v1 kind)
  unfolding scheme
  Recognized-cluster_api kind i =
      law.add_keeps _ _ _ (law.add_keeps _ _ _ (law.adds_cluster_api _ kind i))

  infixr 5 ◌&◌
  pub data AllRecognized : List GroupVersionKind → Type 0 where
    nothing : AllRecognized []
    ◌&◌ :
        {k : GroupVersionKind} {ks : List GroupVersionKind}
        → Recognized k
        → AllRecognized ks
        → AllRecognized (k ∷ ks)

  abbrev pub KnowsTypes : Setup → Type 0
  KnowsTypes call = AllRecognized (types_of call)

  controllers_plan-KnowsTypes : All KnowsTypes (controllers_plan ++ (start ∷ []))
  controllers_plan-KnowsTypes =
      let cluster = Recognized-v1alpha3 _ (scheme_builder_cluster v1alpha3) in
      let machine = Recognized-v1alpha3 _ (scheme_builder_machine v1alpha3) in
      let machines = Recognized-v1alpha3 _ (scheme_builder_machines v1alpha3) in
      let cluster_api = Recognized-cluster_api "Cluster" (inl refl) in
      let machine_api = Recognized-cluster_api "Machine" (inr (inl refl)) in
      let pod = Recognized-core "Pod" (inl refl) in
      let secret = Recognized-core "Secret" (inr (inl refl)) in
      let claim = Recognized-core "PersistentVolumeClaim" (inr (inr (inl refl))) in
      let service = Recognized-core "Service" (inr (inr (inr (inl refl)))) in
      let watched = machine_api & machine_api & cluster & pod & secret & claim & nothing in
      (
        cluster & cluster_api & cluster_api & service & nothing,
        (
          nothing,
          (machine & watched, (machines & nothing, (cluster_api & nothing, (nothing, tt)))),
        ),
      )

  webhooks_plan-KnowsTypes : All KnowsTypes (webhooks_plan ++ (start ∷ []))
  webhooks_plan-KnowsTypes =
      let cluster = Recognized-v1alpha3 _ (scheme_builder_cluster v1alpha3) in
      let machine = Recognized-v1alpha3 _ (scheme_builder_machine v1alpha3) in
      let template = Recognized-v1alpha3 _ (scheme_builder_template v1alpha3) in
      let old_machine = Recognized-v1alpha2 _ (scheme_builder_machine v1alpha2) in
      (
        cluster & nothing,
        (machine & nothing, (template & nothing, (old_machine & nothing, (nothing, tt)))),
      )

  plan-KnowsTypes : (flags : Flags) → All KnowsTypes (plan flags)
  plan-KnowsTypes flags = elim (Bool-cases (nat_eq flags.webhook_port 0)) [
    | inl q ↦ rw q (nothing, (nothing, controllers_plan-KnowsTypes))
    | inr q ↦ rw q (nothing, (nothing, webhooks_plan-KnowsTypes))
  ]

  module _ (answers : Answers) where
    in_order-KnowsTypes :
        (calls log : List Setup)
        → All KnowsTypes calls
        → All KnowsTypes log
        → All KnowsTypes (in_order answers calls log).calls
    unfolding in_order attempt answered
    in_order-KnowsTypes [] log c l = l
    in_order-KnowsTypes (call ∷ calls) log (c, cs) l = elim (Option-cases (answers log call)) [
      | inl n ↦ rw n (in_order-KnowsTypes calls (call ∷ log) cs (c, l))
      | inr (e, q) ↦ rw q (c, l)
    ]

    -- Where the scheme's builder and `AddToScheme` do as documented: every type that main sets up a
    -- controller or a webhook for, watches, or looks for lists of, is in the process's scheme, whatever
    -- the flags and however far main gets.
    pub main-KnowsTypes : (flags : Flags) → All KnowsTypes (main answers flags).calls
    main-KnowsTypes flags =
        rw (main-in_order answers flags)
          (in_order-KnowsTypes (plan flags) [] (plan-KnowsTypes flags) tt)
