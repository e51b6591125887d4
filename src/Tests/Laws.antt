-- ===== src/Tests/Laws.antt =====
-- The fixtures' platform keeps the laws.
use cluster_api_provider_kub.Prelude.{
  String, true, false, List, [], ◌∷◌, ◌++◌, ◌≡◌, ◌≢◌, refl, ap, arith, In, inl, inr, ◌==◌,
  Bool-cases, eq_iff, any, sym,
}
use cluster_api_provider_kub.Go.{Result, ok, err}
use cluster_api_provider_kub.Kube.{ObjectMeta}
use cluster_api_provider_kub.Platform.Lawful.{FinalizersLaw, ControllerLaw, PortLaw}
use cluster_api_provider_kub.Controllers.Machine.Secrets.{CreateLaw}
use cluster_api_provider_kub.Tests.Fixtures.{empty_platform, without, find_controller}

abbrev the_object : Result ObjectMeta → ObjectMeta → ObjectMeta
the_object (ok m) _ = m
the_object (err _) m = m

pub empty_platform-ControllerLaw : ControllerLaw empty_platform
empty_platform-ControllerLaw = record {
  controller_set = λ kind owner m m' e.
      let q = ap (λ r. the_object r m) e in rw (sym q) (_, refl, refl, refl, refl, refl);
  only_references = λ kind owner m m' e. let q = ap (λ r. the_object r m) e in rw (sym q) refl;
}

pub empty_platform-PortLaw : PortLaw empty_platform
empty_platform-PortLaw = record { port_text_name = λ name. refl }

pub empty_platform-CreateLaw : CreateLaw empty_platform
empty_platform-CreateLaw = record {
  references_kept = λ log s. refl;
  controller_of_references = λ m m' e. ap find_controller e;
}

any-In : (fs : List String) (f : String) → any (λ g. g == f) fs ≡ true → In f fs
any-In [] f e = absurd (cc e)
any-In (g ∷ fs) f e = elim (Bool-cases (g == f)) [
  | inl q ↦ inl (sym ((eq_iff g f).0 q))
  | inr q ↦ inr (any-In fs f (ground (arith, e, q)))
]

In-append_left : (fs gs : List String) (f : String) → In f fs → In f (fs ++ gs)
In-append_left [] gs f i = absurd i
In-append_left (x ∷ fs) gs f (inl e) = inl e
In-append_left (x ∷ fs) gs f (inr i) = inr (In-append_left fs gs f i)

In-append_last : (fs : List String) (f : String) → In f (fs ++ f ∷ [])
In-append_last [] f = inl refl
In-append_last (x ∷ fs) f = inr (In-append_last fs f)

not-In-without : (fs : List String) (f : String) → In f (without fs f) → ⊥
not-In-without [] f i = absurd i
not-In-without (g ∷ fs) f i = elim (Bool-cases (g == f)) [
  | inl q ↦ not-In-without fs f (rw q at i)
  | inr q ↦ elim (rw q at i) [
    | inl e ↦ absurd (ground (arith, q, e, eq_iff g f))
    | inr i' ↦ not-In-without fs f i'
  ]
]

In-without : (fs : List String) (f g : String) → In g fs → g ≢ f → In g (without fs f)
In-without [] f g i n = absurd i
In-without (h ∷ fs) f g (inl e) n =
    let different : (h == f) ≡ false = ground (arith, n, e, eq_iff h f) in rw different (inl e)
In-without (h ∷ fs) f g (inr i) n = elim (Bool-cases (h == f)) [
  | inl q ↦ rw q (In-without fs f g i n)
  | inr q ↦ rw q (inr (In-without fs f g i n))
]

pub empty_platform-FinalizersLaw : FinalizersLaw empty_platform
empty_platform-FinalizersLaw = record {
  in_add = λ fs f. elim (Bool-cases (any (λ g. g == f) fs)) [
    | inl e ↦ rw e (any-In fs f e)
    | inr e ↦ rw e (In-append_last fs f)
  ];
  in_add_of_in = λ fs f g i. elim (Bool-cases (any (λ h. h == f) fs)) [
    | inl e ↦ rw e i
    | inr e ↦ rw e (In-append_left fs (f ∷ []) g i)
  ];
  not_in_remove = not-In-without;
  in_remove_of_in = In-without;
}
