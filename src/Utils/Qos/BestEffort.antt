-- ===== src/Utils/Qos/BestEffort.antt =====
-- When a pod is best effort.
use mathlib.Core.Bool.{not}
use cluster_api_provider_kub.Prelude.Maps.{lookup, insert}
use cluster_api_provider_kub.Prelude.{
  [], ◌∷◌, true, false, ◌≡◌, refl, arith, inl, inr, ◌&&◌, ◌||◌, Bool, List, ◌≢◌, nat_eq, any,
  length, ◌↔◌, ◌∙◌, Bool-cases, ◌++◌, String,
}
use cluster_api_provider_kub.Utils.Qos.{
  add_entries, counts, add_to, totals, Totals, add_container, classify, get_pod_qos, best_effort,
  Platform, Container, Pod, ResourceList, Quantity,
}

-- Some entry of a list of resources counts.
abbrev pub any_counts : Platform → ResourceList → Bool
any_counts p entries = any (λ e. counts p e.0 e.1) entries

-- A container asks for, or is limited to, an amount of CPU or memory above zero.
abbrev pub container_counts : Platform → Container → Bool
container_counts p c = any_counts p c.resources.requests || any_counts p c.resources.limits

length-insert :
    (k : String) (v : Quantity) (m : ResourceList) → nat_eq (length (insert k v m)) 0 ≡ false
unfolding insert
length-insert k v [] = refl
length-insert k v ((j, w) ∷ m) = ground arith

add_entries_empty :
    (p : Platform) (sums entries : ResourceList)
    → nat_eq (length (add_entries p sums entries)) 0
      ≡ (nat_eq (length sums) 0 && not (any_counts p entries))
unfolding add_entries
add_entries_empty p sums [] = ground arith
add_entries_empty p sums ((name, q) ∷ entries) = elim (Bool-cases (counts p name q)) [
  | inl c ↦ rw c (
      add_entries_empty p (insert name (add_to p q (lookup name sums)) sums) entries
      ∙ ground (arith, length-insert name (add_to p q (lookup name sums)) sums))
  | inr c ↦ rw c (add_entries_empty p sums entries)
]

-- Nothing has been counted yet.
abbrev pub is_none : Totals → Bool
is_none t = nat_eq (length t.requests) 0 && nat_eq (length t.limits) 0

pub totals_none :
    (p : Platform) (t : Totals) (cs : List Container)
    → is_none (totals p t cs) ≡ (is_none t && not (any (container_counts p) cs))
unfolding totals add_container
totals_none p t [] = ground arith
totals_none p t (c ∷ cs) =
    totals_none p (add_container p t c) cs
    ∙ ground (
      arith,
      add_entries_empty p t.requests c.resources.requests,
      add_entries_empty p t.limits c.resources.limits,
    )

classify-best_effort : (p : Platform) (t : Totals) → is_none t ≡ false → classify p t ≢ best_effort
unfolding classify
classify-best_effort p t h e = ground arith

-- `GetPodQOS` says best effort exactly where no container, init containers included, asks for or is
-- limited to an amount of CPU or memory above zero.
pub get_pod_qos-best_effort_iff :
    (p : Platform) (pod : Pod)
    → (get_pod_qos p pod ≡ best_effort)
      ↔ (any (container_counts p) (pod.spec.containers ++ pod.spec.init_containers) ≡ false)
unfolding get_pod_qos
get_pod_qos-best_effort_iff p pod =
    let cs = pod.spec.containers ++ pod.spec.init_containers in
    let zero : Totals = record { requests = []; limits = []; is_guaranteed = true } in
    let n : is_none (totals p zero cs) ≡ not (any (container_counts p) cs) =
      totals_none p zero cs in
    (
      λ e. ground (arith, n, classify-best_effort p (totals p zero cs)),
      λ e. unfold classify in ground (arith, n, e),
    )
