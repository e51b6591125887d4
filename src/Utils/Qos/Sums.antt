-- ===== src/Utils/Qos/Sums.antt =====
-- What the maps of GetPodQOS hold: the sums of the containers' requests and limits.
use cluster_api_provider_kub.Prelude.Maps.{lookup, insert}
use cluster_api_provider_kub.Prelude.{
  [], ◌∷◌, true, false, ◌≡◌, arith, inl, inr, ◌&&◌, Bool, List, any, Option, none, some,
  if◌then◌else◌, ◌==◌, eq_iff, Bool-cases, String, is_some, ◌||◌, ◌∙◌, eq_refl, refl,
}
use cluster_api_provider_kub.Utils.Qos.{
  counts, add_to, is_supported_qos_compute_resource, zero_quantity, Platform, Container,
  ResourceList, Quantity, add_entries, totals, all_limits_found, qos_limits_found, Totals, has,
  add_container,
}

-- An entry is an amount above zero of the resource.
abbrev pub above_zero : Platform → String → String × Quantity → Bool
above_zero p resource e = e.0 == resource && p.quantity_gt e.1 zero_quantity

-- The sum of the amounts of a resource in a list, on top of a sum.
abbrev pub sum_of : Platform → String → Option Quantity → ResourceList → Option Quantity
sum_of p resource sum [] = sum
sum_of p resource sum (e ∷ entries) =
    sum_of p resource (if above_zero p resource e then some (add_to p e.1 sum) else sum) entries

-- The same for the requests, or the limits, of containers.
abbrev pub sum_of_all :
    Platform
    → String
    → (Container → ResourceList)
    → Option Quantity
    → List Container
    → Option Quantity
sum_of_all p resource list sum [] = sum
sum_of_all p resource list sum (c ∷ cs) =
    sum_of_all p resource list (sum_of p resource sum (list c)) cs

abbrev pub requests_of : Container → ResourceList
requests_of c = c.resources.requests

abbrev pub limits_of : Container → ResourceList
limits_of c = c.resources.limits

-- A container has limits above zero for both resources.
abbrev pub limits_both : Platform → Container → Bool
limits_both p c =
    any (above_zero p "memory") (limits_of c) && any (above_zero p "cpu") (limits_of c)

abbrev pub every : (Container → Bool) → List Container → Bool
every test [] = true
every test (c ∷ cs) = test c && every test cs

-- What the maps of sums hold.
pub data Sums : Option Quantity → Option Quantity → ResourceList → Type 0 where
  no_sums : Sums none none []
  cpu_sum : (c : Quantity) → Sums (some c) none (("cpu", c) ∷ [])
  memory_sum : (m : Quantity) → Sums none (some m) (("memory", m) ∷ [])
  cpu_memory : (c m : Quantity) → Sums (some c) (some m) (("cpu", c) ∷ ("memory", m) ∷ [])
  memory_cpu : (c m : Quantity) → Sums (some c) (some m) (("memory", m) ∷ ("cpu", c) ∷ [])

module _ (p : Platform) where
  Sums-cpu :
      (c m : Option Quantity) (sums : ResourceList) (q : Quantity)
      → Sums c m sums
      → Sums (some (add_to p q c)) m (insert "cpu" (add_to p q (lookup "cpu" sums)) sums)
  unfolding insert lookup
  Sums-cpu c m sums q no_sums = cpu_sum _
  Sums-cpu c m sums q (cpu_sum d) = cpu_sum _
  Sums-cpu c m sums q (memory_sum d) = memory_cpu _ _
  Sums-cpu c m sums q (cpu_memory d e) = cpu_memory _ _
  Sums-cpu c m sums q (memory_cpu d e) = memory_cpu _ _

  Sums-memory :
      (c m : Option Quantity) (sums : ResourceList) (q : Quantity)
      → Sums c m sums
      → Sums c (some (add_to p q m)) (insert "memory" (add_to p q (lookup "memory" sums)) sums)
  unfolding insert lookup
  Sums-memory c m sums q no_sums = memory_sum _
  Sums-memory c m sums q (cpu_sum d) = cpu_memory _ _
  Sums-memory c m sums q (memory_sum d) = memory_sum _
  Sums-memory c m sums q (cpu_memory d e) = cpu_memory _ _
  Sums-memory c m sums q (memory_cpu d e) = memory_cpu _ _

  -- One entry in a map of sums.
  abbrev with_entry : ResourceList → String × Quantity → ResourceList
  with_entry sums e =
      if counts p e.0 e.1 then insert e.0 (add_to p e.1 (lookup e.0 sums)) sums else sums

  abbrev one_more : String → Option Quantity → String × Quantity → Option Quantity
  one_more resource sum e = if above_zero p resource e then some (add_to p e.1 sum) else sum

  Sums-with_entry :
      (c m : Option Quantity) (sums : ResourceList) (name : String) (q : Quantity)
      → Sums c m sums
      → Sums
          (one_more "cpu" c (name, q))
          (one_more "memory" m (name, q))
          (with_entry sums (name, q))
  unfolding counts is_supported_qos_compute_resource
  Sums-with_entry c m sums name q s = elim (Bool-cases (p.quantity_gt q zero_quantity)) [
    | inr z ↦
        let uncounted : counts p name q ≡ false = ground (arith, z) in
        let no_cpu : above_zero p "cpu" (name, q) ≡ false = ground (arith, z) in
        let no_memory : above_zero p "memory" (name, q) ≡ false = ground (arith, z) in
        rw (uncounted, no_cpu, no_memory) s
    | inl z ↦ elim (Bool-cases (name == "cpu")) [
      | inl a ↦
          let is : name ≡ "cpu" = (eq_iff name "cpu").0 a in rw (is, z) (Sums-cpu c m sums q s)
      | inr a ↦ elim (Bool-cases (name == "memory")) [
        | inl b ↦
            let is : name ≡ "memory" = (eq_iff name "memory").0 b in
            rw (is, z) (Sums-memory c m sums q s)
        | inr b ↦ rw (a, b) s
      ]
    ]
  ]

  add_entries-Sums :
      (c m : Option Quantity) (sums entries : ResourceList)
      → Sums c m sums
      → Sums (sum_of p "cpu" c entries) (sum_of p "memory" m entries) (add_entries p sums entries)
  unfolding add_entries
  add_entries-Sums c m sums [] s = s
  add_entries-Sums c m sums ((name, q) ∷ entries) s =
      add_entries-Sums (one_more "cpu" c (name, q)) (one_more "memory" m (name, q))
        (with_entry sums (name, q)) entries (Sums-with_entry c m sums name q s)

  -- The limits that a container has are those with an amount above zero.
  has-qos_limits_found :
      (resource : String) (entries : ResourceList)
      → is_supported_qos_compute_resource resource ≡ true
      → has (qos_limits_found p entries) resource ≡ any (above_zero p resource) entries
  unfolding qos_limits_found counts
  has-qos_limits_found resource [] s = refl
  has-qos_limits_found resource ((name, q) ∷ entries) s = elim (Bool-cases (name == resource)) [
    | inl e ↦
        let is : name ≡ resource = (eq_iff name resource).0 e in
        rw is (ground (arith, s, eq_refl resource, has-qos_limits_found resource entries s))
    | inr n ↦ ground (arith, n, has-qos_limits_found resource entries s)
  ]

  all_limits_found-limits_both : (c : Container) → all_limits_found p c ≡ limits_both p c
  unfolding all_limits_found is_supported_qos_compute_resource
  all_limits_found-limits_both c =
      rw
        (
          has-qos_limits_found "memory" c.resources.limits refl,
          has-qos_limits_found "cpu" c.resources.limits refl,
        )
        refl

  is_some-sum_of :
      (resource : String) (sum : Option Quantity) (entries : ResourceList)
      → is_some (sum_of p resource sum entries)
        ≡ (is_some sum || any (above_zero p resource) entries)
  is_some-sum_of resource sum [] = ground arith
  is_some-sum_of resource sum (e ∷ entries) =
      is_some-sum_of resource (one_more resource sum e) entries ∙ ground arith

  pub is_some-sum_of_all :
      (resource : String) (list : Container → ResourceList) (sum : Option Quantity)
      (cs : List Container)
      → is_some (sum_of_all p resource list sum cs)
        ≡ (is_some sum || any (λ c. any (above_zero p resource) (list c)) cs)
  is_some-sum_of_all resource list sum [] = ground arith
  is_some-sum_of_all resource list sum (c ∷ cs) =
      is_some-sum_of_all resource list (sum_of p resource sum (list c)) cs
      ∙ ground (arith, is_some-sum_of resource sum (list c))

  -- What the loop over the containers leaves.
  pub record Summed (cpu memory cpu_limit memory_limit : Option Quantity) (t : Totals)
      : Type 0 where
    pub requested : Sums cpu memory t.requests
    pub limited : Sums cpu_limit memory_limit t.limits

  pub totals-Summed :
      (c m d n : Option Quantity) (t : Totals) (cs : List Container)
      → Summed c m d n t
      → Summed
          (sum_of_all p "cpu" requests_of c cs)
          (sum_of_all p "memory" requests_of m cs)
          (sum_of_all p "cpu" limits_of d cs)
          (sum_of_all p "memory" limits_of n cs)
          (totals p t cs)
  unfolding totals add_container
  totals-Summed c m d n t [] s = s
  totals-Summed c m d n t (x ∷ cs) s =
      totals-Summed (sum_of p "cpu" c (requests_of x)) (sum_of p "memory" m (requests_of x))
        (sum_of p "cpu" d (limits_of x)) (sum_of p "memory" n (limits_of x)) (add_container p t x)
        cs
        (record {
          requested = add_entries-Sums c m t.requests (requests_of x) s.requested;
          limited = add_entries-Sums d n t.limits (limits_of x) s.limited;
        })

  pub is_guaranteed-totals :
      (t : Totals) (cs : List Container)
      → (totals p t cs).is_guaranteed ≡ (t.is_guaranteed && every (limits_both p) cs)
  unfolding totals add_container
  is_guaranteed-totals t [] = ground arith
  is_guaranteed-totals t (c ∷ cs) =
      is_guaranteed-totals (add_container p t c) cs ∙ ground (arith, all_limits_found-limits_both c)
