-- ===== src/Controllers/Metadata.antt =====
-- The metadata of an object that the controllers read again.
use cluster_api_provider_kub.Prelude.{◌≡◌, ap, ◌∙◌}
use cluster_api_provider_kub.Kube.{ObjectMeta}

-- The metadata of an object with other finalizers.
abbrev pub Resembles : ObjectMeta → ObjectMeta → Type 0
Resembles m m' = m' ≡ record m { finalizers = m'.finalizers }

pub Resembles-trans : (a b c : ObjectMeta) → Resembles a b → Resembles b c → Resembles a c
Resembles-trans a b c ab bc =
    bc ∙ ap (λ (m : ObjectMeta). record m { finalizers = c.finalizers }) ab
