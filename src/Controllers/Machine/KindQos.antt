-- ===== src/Controllers/Machine/KindQos.antt =====
-- The QoS class of the pod that `setKindContainerBase` leaves.
use cluster_api_provider_kub.Prelude.{
  ℕ, zero, suc, ◌+◌, ◌<◌, Bool, true, ◌||◌, none, some, Option, List, [], ◌∷◌, ◌++◌, ◌≡◌, ◌≢◌, refl,
  arith, inl, inr, any, any-append, length, length-append, get_elem?, set, Bool-cases, Option-cases,
  ◌==◌, ◌∙◌, ap, sym,
}
use cluster_api_provider_kub.Kube.{Container, Machine, Pod, empty_container}
use cluster_api_provider_kub.Platform.{Platform}
use cluster_api_provider_kub.Utils.Qos.{
  PodQosClass, best_effort, guaranteed, burstable, get_pod_qos, counts, zero_quantity,
  is_supported_qos_compute_resource,
}
use cluster_api_provider_kub.Utils.Qos.BestEffort.{
  container_counts, any_counts, get_pod_qos-best_effort_iff,
}
use cluster_api_provider_kub.Utils.Exec.{kind_container_name}
use cluster_api_provider_kub.Controllers.Machine.Container.{
  kind_index, kind_index_from, find_or_create, update_at, with_containers, set_name_and_image,
  set_resources, one_milli_cpu, set_kind_container_base,
}
use cluster_api_provider_kub.Controllers.Machine.KindContainer.{
  finished, finished-fields, get_elem?-set_self, update_at-some,
}

-- The index of the loop is one of the list's.
kind_index_from-lt :
    (n : ℕ) (k : Option ℕ) (cs : List Container) (i : ℕ)
    → ((j : ℕ) → k ≡ some j → j < n)
    → kind_index_from n k cs ≡ some i
    → i < n + length cs
unfolding kind_index_from
kind_index_from-lt n k [] i below e = omega (arith, below i e)
kind_index_from-lt n k (c ∷ cs) i below e = elim (Bool-cases (c.name == kind_container_name)) [
  | inl q ↦ omega (
    arith,
    kind_index_from-lt (suc n) (some n) cs i (λ j h. let same : n ≡ j = cc h in omega (arith, same))
        (rw q at e),
  )
  | inr q ↦
      omega (arith, kind_index_from-lt (suc n) k cs i (λ j h. omega (arith, below j h)) (rw q at e))
]

get_elem?-lt :
    (cs : List Container) (i : ℕ) → i < length cs → (a : Container) × (get_elem? cs i ≡ some a)
get_elem?-lt [] i h = absurd (omega arith)
get_elem?-lt (c ∷ cs) zero h = (c, refl)
get_elem?-lt (c ∷ cs) (suc i) h = get_elem?-lt cs i (omega arith)

-- The pointer is to a container of the list.
find_or_create-some :
    (cs : List Container)
    → (a : Container) × (get_elem? (find_or_create cs).0 (find_or_create cs).1 ≡ some a)
unfolding find_or_create kind_index
find_or_create-some cs = elim (Option-cases (kind_index cs)) [
  | inl n ↦
      let made : find_or_create cs ≡ (cs ++ empty_container ∷ [], 0) = rw (n, find_or_create) in
      rw made (
        get_elem?-lt (cs ++ empty_container ∷ []) 0
          (omega (arith, length-append cs (empty_container ∷ []))))
  | inr (i, e) ↦
      let found : find_or_create cs ≡ (cs, i) = rw (e, find_or_create) in
      rw found
        (get_elem?-lt cs i (omega (arith, kind_index_from-lt 0 none cs i (λ j h. absurd (cc h)) e)))
]

-- One element is replaced by one of the same answer, or by one that passes.
any-set_same :
    (q : Container → Bool) (cs : List Container) (i : ℕ) (a b : Container)
    → get_elem? cs i ≡ some a
    → q b ≡ q a
    → any q (set cs i b) ≡ any q cs
any-set_same q [] i a b e h = refl
any-set_same q (c ∷ cs) zero a b e h = cc (e, h)
any-set_same q (c ∷ cs) (suc i) a b e h = rw (any-set_same q cs i a b e h) refl

any-set-true :
    (q : Container → Bool) (cs : List Container) (i : ℕ) (a b : Container)
    → get_elem? cs i ≡ some a
    → q b ≡ true
    → any q (set cs i b) ≡ true
any-set-true q [] i a b e h = absurd (cc e)
any-set-true q (c ∷ cs) zero a b e h = rw h refl
any-set-true q (c ∷ cs) (suc i) a b e h = ground (arith, any-set-true q cs i a b e h)

module _ (p : Platform) (counted : p.quantity_gt one_milli_cpu zero_quantity ≡ true) where
  finished-counts : (c : Container) → container_counts p (finished best_effort c) ≡ true
  unfolding counts is_supported_qos_compute_resource set_resources
  finished-counts c = rw (finished-fields best_effort c).3 (rw counted refl)

  counted_class :
      (pod : Pod) (named : List Container)
      → get_pod_qos p (with_containers pod named) ≢ best_effort
      → any (container_counts p) (named ++ pod.spec.init_containers) ≡ true
  unfolding with_containers
  counted_class pod named n =
      elim (Bool-cases (any (container_counts p) (named ++ pod.spec.init_containers))) [
        | inl t ↦ t
        | inr f ↦ absurd (n ((get_pod_qos-best_effort_iff p (with_containers pod named)).1 f))
      ]

  kept_counts :
      (pod : Pod) (named : List Container) (i : ℕ) (a b : Container)
      → get_elem? named i ≡ some a
      → b.resources ≡ a.resources
      → get_pod_qos p (with_containers pod named) ≢ best_effort
      → any (container_counts p) (set named i b ++ pod.spec.init_containers) ≡ true
  kept_counts pod named i a b e r n =
      let q = container_counts p in
      let same : q b ≡ q a = ap (λ s. any_counts p s.requests || any_counts p s.limits) r in
      any-append q (set named i b) pod.spec.init_containers
      ∙ ap (λ t. t || any q pod.spec.init_containers) (any-set_same q named i a b e same)
      ∙ sym (any-append q named pod.spec.init_containers)
      ∙ counted_class pod named n

  -- Whatever the class before the last assignments, some container counts after them.
  some_counts :
      (pod : Pod) (named : List Container) (i : ℕ) (a : Container) (qos : PodQosClass)
      → get_elem? named i ≡ some a
      → get_pod_qos p (with_containers pod named) ≡ qos
      → any (container_counts p) (set named i (finished qos a) ++ pod.spec.init_containers) ≡ true
  unfolding set_resources
  some_counts pod named i a best_effort e q =
      any-append (container_counts p) (set named i (finished best_effort a))
        pod.spec.init_containers
      ∙ ap (λ t. t || any (container_counts p) pod.spec.init_containers)
          (any-set-true (container_counts p) named i a (finished best_effort a) e
            (finished-counts a))
  some_counts pod named i a guaranteed e q =
      kept_counts pod named i a (finished guaranteed a) e (finished-fields guaranteed a).3
        (λ b. cc (q, b))
  some_counts pod named i a burstable e q =
      kept_counts pod named i a (finished burstable a) e (finished-fields burstable a).3
        (λ b. cc (q, b))

  -- Where one milli-CPU is above zero, the pod is not best effort after `setKindContainerBase`,
  -- whatever containers it had.
  pub set_kind_container_base_not_best_effort :
      (machine : Machine) (pod : Pod)
      → get_pod_qos p (set_kind_container_base p machine pod).0 ≢ best_effort
  unfolding set_kind_container_base with_containers
  set_kind_container_base_not_best_effort machine pod best =
      let (a, e) = find_or_create-some pod.spec.containers in
      let sn = set_name_and_image machine in
      let cs = (find_or_create pod.spec.containers).0 in
      let i = (find_or_create pod.spec.containers).1 in
      let named = update_at i sn cs in
      let there : get_elem? named i ≡ some (sn a) =
        rw (update_at-some sn cs i a e) (get_elem?-set_self cs i a (sn a) e) in
      let qos = get_pod_qos p (with_containers pod named) in
      let twice = update_at-some (finished qos) named i (sn a) there in
      let counted_after : any (container_counts p)
            (update_at i (finished qos) named ++ pod.spec.init_containers)
          ≡ true =
        rw twice (some_counts pod named i (sn a) qos there refl) in
      let none_after =
        (get_pod_qos-best_effort_iff p (set_kind_container_base p machine pod).0).0 best in
      cc (counted_after, none_after)
