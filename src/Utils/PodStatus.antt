-- ===== src/Utils/PodStatus.antt =====
-- pkg/utils/pod.go. The index -1 with a nil pointer is `none`.
use cluster_api_provider_kub.Prelude.{
  ℕ, suc, String, Bool, true, false, Option, none, some, List, [], ◌∷◌, if◌then◌else◌, ◌==◌,
}
use cluster_api_provider_kub.Kube.{
  ContainerStatus, PodCondition, ConditionStatus, condition_true, condition_false,
  condition_unknown, PodStatus, Pod,
}

-- `GetContainerStatus`
unfoldable pub get_container_status : List ContainerStatus → String → Option ContainerStatus
get_container_status [] name = none
get_container_status (s ∷ statuses) name =
    if s.name == name then some s else get_container_status statuses name

condition_from : ℕ → List PodCondition → String → Option (ℕ × PodCondition)
condition_from i [] condition_type = none
condition_from i (c ∷ conditions) condition_type =
    if c.type == condition_type
    then some (i, c)
    else condition_from (suc i) conditions condition_type

-- `GetPodConditionFromList`
unfoldable pub get_pod_condition_from_list : List PodCondition → String → Option (ℕ × PodCondition)
unfolding condition_from
get_pod_condition_from_list conditions condition_type = condition_from 0 conditions condition_type

-- `GetPodCondition`, at a pointer that is never nil.
unfoldable pub get_pod_condition : PodStatus → String → Option (ℕ × PodCondition)
unfolding get_pod_condition_from_list
get_pod_condition status condition_type =
    get_pod_condition_from_list status.conditions condition_type

second : Option (ℕ × PodCondition) → Option PodCondition
second none = none
second (some (i, c)) = some c

-- `GetPodReadyCondition`
unfoldable pub get_pod_ready_condition : PodStatus → Option PodCondition
unfolding get_pod_condition second
get_pod_ready_condition status = second (get_pod_condition status "Ready")

is_true : ConditionStatus → Bool
is_true condition_true = true
is_true condition_false = false
is_true condition_unknown = false

-- `IsPodReadyConditionTrue`
unfoldable pub is_pod_ready_condition_true : PodStatus → Bool
unfolding get_pod_ready_condition is_true
is_pod_ready_condition_true status = elim (get_pod_ready_condition status) [
  | none ↦ false
  | some c ↦ is_true c.status
]

-- `IsPodReady`
unfoldable pub is_pod_ready : Pod → Bool
unfolding is_pod_ready_condition_true
is_pod_ready pod = is_pod_ready_condition_true pod.status
