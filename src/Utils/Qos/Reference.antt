-- ===== src/Utils/Qos/Reference.antt =====
-- The class of a pod by what its containers ask for in sum.
use cluster_api_provider_kub.Prelude.Maps.{lookup}
use cluster_api_provider_kub.Prelude.{
  [], ◌∷◌, true, false, ◌≡◌, arith, inl, inr, ◌&&◌, Bool, List, any, Option, none, some,
  if◌then◌else◌, Bool-cases, String, is_some, ◌∙◌, refl, not, nat_eq, length, ◌++◌,
}
use cluster_api_provider_kub.Utils.Qos.{
  Platform, Container, ResourceList, Quantity, totals, Totals, PodQosClass, get_pod_qos,
  requests_match_limits, classify, matching, Pod, best_effort, guaranteed, burstable,
}
use cluster_api_provider_kub.Utils.Qos.BestEffort.{container_counts, is_none, totals_none}
use cluster_api_provider_kub.Utils.Qos.Sums.{
  no_sums, Sums, sum_of_all, every, cpu_memory, requests_of, limits_both, memory_cpu, limits_of,
  is_guaranteed-totals, cpu_sum, is_some-sum_of_all, totals-Summed, memory_sum,
}

-- Both sums are there and equal.
abbrev pub same_sum : Platform → Option Quantity → Option Quantity → Bool
same_sum p (some asked) (some limit) = p.quantity_eq limit asked
same_sum p none _ = false
same_sum p (some _) none = false

abbrev pub balanced : Platform → String → List Container → Bool
balanced p resource cs =
    same_sum p (sum_of_all p resource requests_of none cs) (sum_of_all p resource limits_of none cs)

module _ (p : Platform) where
  -- Where both limits are there, the requests match them and are as many exactly where both requests
  -- are there and equal to them.
  matched :
      (c m d n : Option Quantity) (requests limits : ResourceList)
      → is_some d ≡ true
      → is_some n ≡ true
      → Sums c m requests
      → Sums d n limits
      → (requests_match_limits p limits requests && nat_eq (length requests) (length limits))
        ≡ (same_sum p c d && same_sum p m n)
  unfolding requests_match_limits matching lookup
  matched c m d n requests limits hd hn no_sums (cpu_memory x y) = refl
  matched c m d n requests limits hd hn no_sums (memory_cpu x y) = refl
  matched c m d n requests limits hd hn (cpu_sum u) (cpu_memory x y) = ground arith
  matched c m d n requests limits hd hn (cpu_sum u) (memory_cpu x y) = ground arith
  matched c m d n requests limits hd hn (memory_sum u) (cpu_memory x y) = ground arith
  matched c m d n requests limits hd hn (memory_sum u) (memory_cpu x y) = ground arith
  matched c m d n requests limits hd hn (cpu_memory u v) (cpu_memory x y) = ground arith
  matched c m d n requests limits hd hn (cpu_memory u v) (memory_cpu x y) = ground arith
  matched c m d n requests limits hd hn (memory_cpu u v) (cpu_memory x y) = ground arith
  matched c m d n requests limits hd hn (memory_cpu u v) (memory_cpu x y) = ground arith
  matched c m d n requests limits hd hn r no_sums = absurd (cc hd)
  matched c m d n requests limits hd hn r (cpu_sum x) = absurd (cc hn)
  matched c m d n requests limits hd hn r (memory_sum y) = absurd (cc hd)

  limits_of-every :
      (cs : List Container)
      → every (limits_both p) cs ≡ true
      → any (container_counts p) cs ≡ true
      → (is_some (sum_of_all p "cpu" limits_of none cs) ≡ true)
        × (is_some (sum_of_all p "memory" limits_of none cs) ≡ true)
  limits_of-every [] e h = absurd (cc h)
  limits_of-every (c ∷ cs) e h = (
    is_some-sum_of_all p "cpu" limits_of none (c ∷ cs) ∙ ground (arith, e),
    is_some-sum_of_all p "memory" limits_of none (c ∷ cs) ∙ ground (arith, e),
  )

-- The class by the sums: best effort where nothing is asked for or limited, guaranteed where every
-- container has both limits and the sums of the requests are those of the limits, burstable otherwise.
abbrev pub qos_class : Platform → List Container → PodQosClass
qos_class p cs =
    if not (any (container_counts p) cs)
    then best_effort
    else if every (limits_both p) cs && (balanced p "cpu" cs && balanced p "memory" cs)
    then guaranteed
    else burstable

-- `GetPodQOS`, which gathers sums of its containers' requests and limits in two maps, is this: a pod
-- is best effort where no container, init containers included, asks for or is limited to an amount of
-- CPU or memory above zero; else guaranteed where every container has such limits of both and, for
-- both, the sum of the requests over all containers is there and equal to the sum of the limits, though
-- single containers may differ or have no request; else burstable.
pub get_pod_qos-qos_class :
    (p : Platform) (pod : Pod)
    → get_pod_qos p pod ≡ qos_class p (pod.spec.containers ++ pod.spec.init_containers)
unfolding get_pod_qos classify
get_pod_qos-qos_class p pod =
    let cs = pod.spec.containers ++ pod.spec.init_containers in
    let zero : Totals = record { requests = []; limits = []; is_guaranteed = true } in
    let t = totals p zero cs in
    let n : is_none t ≡ not (any (container_counts p) cs) = totals_none p zero cs in
    let g : t.is_guaranteed ≡ every (limits_both p) cs = is_guaranteed-totals p zero cs in
    let s =
      totals-Summed p none none none none zero cs
        (record { requested = no_sums; limited = no_sums }) in
    elim (Bool-cases (any (container_counts p) cs)) [
      | inr h ↦ ground (arith, n, h)
      | inl h ↦ elim (Bool-cases (every (limits_both p) cs)) [
        | inr e ↦ ground (arith, n, g, h, e)
        | inl e ↦
            let (hd, hn) = limits_of-every p cs e h in
            let b : (requests_match_limits p t.limits t.requests
                  && nat_eq (length t.requests) (length t.limits))
                ≡ (balanced p "cpu" cs && balanced p "memory" cs) =
              matched p _ _ _ _ t.requests t.limits hd hn s.requested s.limited in
            ground (arith, n, g, h, e, b)
      ]
    ]
