-- ===== src/Api/Registration.antt =====
-- The scheme of the process: groupversion_info.go and the `init` functions of both versions' types,
-- and main.go's `init`. The `runtime.Scheme` and controller-runtime's `scheme.Builder` are parameters.
use cluster_api_provider_kub.Prelude.{In, String, List, [], ◌∷◌, Bool, ◌≡◌, true}

pub record GroupVersion : Type 0 where
  pub group : String
  pub version : String

pub record GroupVersionKind : Type 0 where
  pub group_version : GroupVersion
  pub kind : String

-- The schemes, and what adds types to them: `AddToScheme` of client-go and of Cluster API, and the
-- builder of a group and version, which is given objects by their kinds.
pub record Schemes : Type 1 where
  pub Scheme : Type 0
  pub Builder : Type 0
  pub new_scheme : Scheme
  pub new_builder : GroupVersion → Builder
  pub register : Builder → List String → Builder
  pub add_to_scheme : Builder → Scheme → Scheme
  pub add_client_go : Scheme → Scheme
  pub add_cluster_api : Scheme → Scheme
  pub recognizes : Scheme → GroupVersionKind → Bool

-- GroupVersion of api/v1alpha3, and of api/v1alpha2
abbrev pub v1alpha3 : GroupVersion
v1alpha3 = record { group = "infrastructure.dippynark.co.uk"; version = "v1alpha3" }

abbrev pub v1alpha2 : GroupVersion
v1alpha2 = record { group = "infrastructure.dippynark.co.uk"; version = "v1alpha2" }

-- The groups and versions of the types of client-go and of Cluster API that the controllers watch.
abbrev pub core_v1 : GroupVersion
core_v1 = record { group = ""; version = "v1" }

abbrev pub cluster_v1 : GroupVersion
cluster_v1 = record { group = "cluster.x-k8s.io"; version = "v1alpha3" }

-- The objects that the `init` functions of the types' files register.
unfoldable pub registered_clusters : List String
registered_clusters = "KubernetesCluster" ∷ "KubernetesClusterList" ∷ []

unfoldable pub registered_machines : List String
registered_machines = "KubernetesMachine" ∷ "KubernetesMachineList" ∷ []

unfoldable pub registered_templates : List String
registered_templates = "KubernetesMachineTemplate" ∷ "KubernetesMachineTemplateList" ∷ []

module _ (s : Schemes) where
  -- SchemeBuilder of a version, after the `init` functions of its files in the order of their names.
  unfoldable pub scheme_builder : GroupVersion → s.Builder
  unfolding registered_clusters registered_machines registered_templates
  scheme_builder version =
      s.register
        (s.register (s.register (s.new_builder version) registered_clusters) registered_machines)
        registered_templates

  -- main.go's `scheme` after its `init`.
  unfoldable pub scheme : s.Scheme
  unfolding scheme_builder
  scheme =
      s.add_to_scheme (scheme_builder v1alpha2) (
        s.add_to_scheme (scheme_builder v1alpha3)
          (s.add_cluster_api (s.add_client_go s.new_scheme)))

-- What a scheme's builder and `AddToScheme` are documented to do: a type that has been registered or
-- added is recognized, and stays so.
pub record SchemesLaw (s : Schemes) : Type 0 where
  pub version_of : s.Builder → GroupVersion
  pub contains : s.Builder → String → Bool
  pub version_new : (version : GroupVersion) → version_of (s.new_builder version) ≡ version
  pub version_register :
      (b : s.Builder) (kinds : List String) → version_of (s.register b kinds) ≡ version_of b
  pub registers :
      (b : s.Builder) (kinds : List String) (kind : String)
      → In kind kinds
      → contains (s.register b kinds) kind ≡ true
  pub register_keeps :
      (b : s.Builder) (kinds : List String) (kind : String)
      → contains b kind ≡ true
      → contains (s.register b kinds) kind ≡ true
  pub adds :
      (b : s.Builder) (scheme' : s.Scheme) (kind' : String)
      → contains b kind' ≡ true
      → s.recognizes
          (s.add_to_scheme b scheme')
          (record { group_version = version_of b; kind = kind' })
        ≡ true
  pub add_keeps :
      (b : s.Builder) (scheme' : s.Scheme) (k : GroupVersionKind)
      → s.recognizes scheme' k ≡ true
      → s.recognizes (s.add_to_scheme b scheme') k ≡ true
  pub adds_client_go :
      (scheme' : s.Scheme) (kind' : String)
      → In kind' ("Pod" ∷ "Secret" ∷ "PersistentVolumeClaim" ∷ "Service" ∷ [])
      → s.recognizes (s.add_client_go scheme') (record { group_version = core_v1; kind = kind' })
        ≡ true
  pub adds_cluster_api :
      (scheme' : s.Scheme) (kind' : String)
      → In kind' ("Cluster" ∷ "Machine" ∷ [])
      → s.recognizes
          (s.add_cluster_api scheme')
          (record { group_version = cluster_v1; kind = kind' })
        ≡ true
  pub cluster_api_keeps :
      (scheme' : s.Scheme) (k : GroupVersionKind)
      → s.recognizes scheme' k ≡ true
      → s.recognizes (s.add_cluster_api scheme') k ≡ true
