-- ===== src/Platform/Lawful.antt =====
-- What the helpers are documented to do, for the theorems that rest on it.
use cluster_api_provider_kub.Prelude.{String, some, List, ◌≡◌, ◌≢◌, In, length, ◌↔◌, []}
use cluster_api_provider_kub.Go.{ok}
use cluster_api_provider_kub.Kube.{ObjectMeta, OwnerReference, from_string, PersistentVolumeClaim}
use cluster_api_provider_kub.Api.V1alpha3.{group_version}
use cluster_api_provider_kub.Platform.{Platform}

-- controllerutil's finalizers: adding makes an element and loses none; removing takes every
-- occurrence of one out, and no other.
pub record FinalizersLaw (p : Platform) : Type 0 where
  pub in_add : (fs : List String) (f : String) → In f (p.add_finalizer fs f)
  pub in_add_of_in : (fs : List String) (f g : String) → In g fs → In g (p.add_finalizer fs f)
  pub not_in_remove : (fs : List String) (f : String) → In f (p.remove_finalizer fs f) → ⊥
  pub in_remove_of_in :
      (fs : List String) (f g : String) → In g fs → g ≢ f → In g (p.remove_finalizer fs f)

-- SetControllerReference, where it succeeds, makes the owner the controller, with the group and
-- version that the scheme has for the owner's type, and changes nothing but the owner references.
pub record ControllerLaw (p : Platform) : Type 0 where
  pub controller_set :
      (kind : String) (owner m m' : ObjectMeta)
      → p.set_controller_reference kind owner m ≡ ok m'
      → (ref : OwnerReference) × (p.get_controller_of m' ≡ some ref)
        × (ref.uid ≡ owner.uid)
        × (ref.kind ≡ kind)
        × (ref.name ≡ owner.name)
        × (ref.api_version ≡ group_version)
  pub only_references :
      (kind : String) (owner m m' : ObjectMeta)
      → p.set_controller_reference kind owner m ≡ ok m'
      → m' ≡ record m { owner_references = m'.owner_references }

-- The text of a named port is the name.
pub record PortLaw (p : Platform) : Type 0 where
  pub port_text_name : (name : String) → p.port_text (from_string name) ≡ name

-- `range` visits every entry of a map once, and nothing else.
pub record RangeLaw (p : Platform) : Type 0 where
  pub length-range :
      (claims : List (String × PersistentVolumeClaim))
      → length (p.range_claims claims) ≡ length claims
  pub in_range_iff :
      (claims : List (String × PersistentVolumeClaim)) (entry : String × PersistentVolumeClaim)
      → In entry (p.range_claims claims) ↔ In entry claims

-- SetControllerReference succeeds on an object in the owner's namespace that has no owner yet.
pub record FreshLaw (p : Platform) : Type 0 where
  pub set_fresh :
      (kind : String) (owner m : ObjectMeta)
      → m.owner_references ≡ []
      → m.namespace ≡ owner.namespace
      → (m' : ObjectMeta) × (p.set_controller_reference kind owner m ≡ ok m')
