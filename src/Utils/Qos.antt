-- ===== src/Utils/Qos.antt =====
-- pkg/utils/qos.go. A `ResourceList` is a map; the loops over one visit its entries in list order, on
-- which no result depends.
pub mod BestEffort
pub mod Sums
pub mod Reference
use cluster_api_provider_kub.Prelude.{
  String, Bool, true, false, ◌&&◌, ◌||◌, Option, none, some, List, [], ◌∷◌, ◌++◌, if◌then◌else◌,
  ◌==◌, length, nat_eq, any,
}
use cluster_api_provider_kub.Prelude.Maps.{lookup, insert}
use cluster_api_provider_kub.Kube.{Quantity, ResourceList, Container, Pod}
use cluster_api_provider_kub.Platform.{Platform}

pub data PodQosClass : Type 0 where
  guaranteed burstable best_effort : PodQosClass

-- `resource.MustParse("0")`
abbrev pub zero_quantity : Quantity
zero_quantity = record { canonical = "0" }

unfoldable pub is_supported_qos_compute_resource : String → Bool
is_supported_qos_compute_resource name = name == "cpu" || name == "memory"

-- The entry counts: it is of a supported resource and above zero.
unfoldable pub counts : Platform → String → Quantity → Bool
unfolding is_supported_qos_compute_resource
counts p name quantity =
    is_supported_qos_compute_resource name && p.quantity_gt quantity zero_quantity

-- The sum under a name, with one more quantity.
unfoldable pub add_to : Platform → Quantity → Option Quantity → Quantity
add_to p delta none = delta
add_to p delta (some sum) = p.quantity_add delta sum

-- The loop over the entries of one container's requests, or limits.
unfoldable pub add_entries : Platform → ResourceList → ResourceList → ResourceList
unfolding add_to
add_entries p sums [] = sums
add_entries p sums ((name, quantity) ∷ entries) =
    add_entries p
      (if counts p name quantity
        then insert name (add_to p quantity (lookup name sums)) sums
        else sums)
      entries

-- `qosLimitsFound`
unfoldable pub qos_limits_found : Platform → ResourceList → List String
qos_limits_found p [] = []
qos_limits_found p ((name, quantity) ∷ entries) =
    let rest = qos_limits_found p entries in if counts p name quantity then name ∷ rest else rest

abbrev pub has : List String → String → Bool
has names n = any (λ m. m == n) names

unfoldable pub all_limits_found : Platform → Container → Bool
unfolding qos_limits_found
all_limits_found p c =
    let found = qos_limits_found p c.resources.limits in has found "memory" && has found "cpu"

-- The variables of the loop over the containers.
pub record Totals : Type 0 where
  pub requests : ResourceList
  pub limits : ResourceList
  pub is_guaranteed : Bool

unfoldable pub add_container : Platform → Totals → Container → Totals
add_container p t c = record {
  requests = add_entries p t.requests c.resources.requests;
  limits = add_entries p t.limits c.resources.limits;
  is_guaranteed = t.is_guaranteed && all_limits_found p c;
}

unfoldable pub totals : Platform → Totals → List Container → Totals
totals p t [] = t
totals p t (c ∷ cs) = totals p (add_container p t c) cs

-- The loop that checks that the requests match the limits.
unfoldable pub matching : Platform → Quantity → Option Quantity → Bool
matching p req none = false
matching p req (some lim) = p.quantity_eq lim req

unfoldable pub requests_match_limits : Platform → ResourceList → ResourceList → Bool
unfolding matching
requests_match_limits p limits [] = true
requests_match_limits p limits ((name, req) ∷ requests) =
    matching p req (lookup name limits) && requests_match_limits p limits requests

unfoldable pub classify : Platform → Totals → PodQosClass
classify p t =
    if nat_eq (length t.requests) 0 && nat_eq (length t.limits) 0
    then best_effort
    else if (t.is_guaranteed && requests_match_limits p t.limits t.requests)
        && nat_eq (length t.requests) (length t.limits)
    then guaranteed
    else burstable

-- `GetPodQOS`
unfoldable pub get_pod_qos : Platform → Pod → PodQosClass
get_pod_qos p pod = classify p (
    totals p (record { requests = []; limits = []; is_guaranteed = true })
      (pod.spec.containers ++ pod.spec.init_containers))
