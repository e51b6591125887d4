-- ===== src/Tests/Processes.antt =====
-- Runs of main.go on calls that succeed or fail, and schemes that do as documented.
use cluster_api_provider_kub.Prelude.{
  sym, ◌∙◌, String, List, [], ◌∷◌, ◌++◌, Bool, true, ◌==◌, ◌&&◌, ◌||◌, any, In, ◌≡◌, refl, arith,
  none, some, inl, inr, eq_refl, ap, All, if◌then◌else◌, ◌⊎◌,
}
use cluster_api_provider_kub.Go.{message}
use cluster_api_provider_kub.Api.Registration.{
  Schemes, GroupVersion, GroupVersionKind, SchemesLaw, core_v1, cluster_v1, v1alpha3,
}
use cluster_api_provider_kub.Process.{
  answered, get_config, main, Answers, Flags, default_flags, options, build_webhook, own_kind,
  setup_controllers, setup_cluster_controller, setup_machine_controller, setup_webhooks,
  start_manager, attempt, new_manager,
}
use cluster_api_provider_kub.Process.Startup.{Finished, plan, Failed, main-outcome}
use cluster_api_provider_kub.Process.Types.{KnowsTypes, main-KnowsTypes}

abbrev all_succeed : Answers
all_succeed log call = none

-- The second webhook fails.
abbrev machines_fail : Answers
machines_fail log (build_webhook k) =
    if k.kind == "KubernetesMachine" then some (message "no such kind") else none
machines_fail log _ = none

abbrev webhook_flags : Flags
webhook_flags = record default_flags { webhook_port = 9443 }

controllers_start : (main all_succeed default_flags).code ≡ 0
unfolding main options setup_controllers setup_cluster_controller setup_machine_controller
    setup_webhooks start_manager attempt answered
controllers_start = refl

webhooks_stop : main machines_fail webhook_flags ≡ record {
  calls =
      build_webhook (own_kind v1alpha3 "KubernetesMachine")
      ∷ build_webhook (own_kind v1alpha3 "KubernetesCluster")
      ∷ new_manager (options webhook_flags)
      ∷ get_config
      ∷ [];
  code = 1;
}
unfolding main options setup_controllers setup_cluster_controller setup_machine_controller
    setup_webhooks start_manager attempt answered
webhooks_stop = refl

main-outcome_example :
    Finished machines_fail (plan webhook_flags) [] (main machines_fail webhook_flags)
    ⊎ Failed machines_fail (plan webhook_flags) [] (main machines_fail webhook_flags)
main-outcome_example = main-outcome machines_fail webhook_flags

-- A scheme as the list of its types, and a builder as the list of its kinds.
abbrev same_kind : GroupVersionKind → GroupVersionKind → Bool
same_kind a b =
    a.kind == b.kind
    && a.group_version.group == b.group_version.group
    && a.group_version.version == b.group_version.version

abbrev kinds_of : GroupVersion → List String → List GroupVersionKind
kinds_of version [] = []
kinds_of version (kind ∷ kinds) = own_kind version kind ∷ kinds_of version kinds

abbrev has_kind : List GroupVersionKind → GroupVersionKind → Bool
has_kind scheme k = any (λ h. same_kind h k) scheme

abbrev core_kinds : List String
core_kinds = "Pod" ∷ "Secret" ∷ "PersistentVolumeClaim" ∷ "Service" ∷ []

abbrev listed_schemes : Schemes
listed_schemes = record {
  Scheme = List GroupVersionKind;
  Builder = GroupVersion × List String;
  new_scheme = [];
  new_builder = λ version. (version, []);
  register = λ b kinds. (b.0, kinds ++ b.1);
  add_to_scheme = λ b scheme. kinds_of b.0 b.1 ++ scheme;
  add_client_go = λ scheme. kinds_of core_v1 core_kinds ++ scheme;
  add_cluster_api = λ scheme. kinds_of cluster_v1 ("Cluster" ∷ "Machine" ∷ []) ++ scheme;
  recognizes = has_kind;
}

any_here :
    (kind : String) (kinds rest : List String)
    → In kind kinds
    → any (λ k. k == kind) (kinds ++ rest) ≡ true
any_here kind [] rest i = elim i [ ]
any_here kind (k ∷ kinds) rest (inl e) =
    ap (λ b. b || any (λ k'. k' == kind) (kinds ++ rest))
      (ap (λ x. x == kind) (sym e) ∙ eq_refl kind)
any_here kind (k ∷ kinds) rest (inr i) = ground (arith, any_here kind kinds rest i)

any_later : {A : Type 0} (q : A → Bool) (xs ys : List A) → any q ys ≡ true → any q (xs ++ ys) ≡ true
any_later q [] ys h = h
any_later q (x ∷ xs) ys h = ground (arith, any_later q xs ys h)

kinds_of-has_kind :
    (version : GroupVersion) (kinds : List String) (scheme : List GroupVersionKind) (kind : String)
    → any (λ k. k == kind) kinds ≡ true
    → has_kind (kinds_of version kinds ++ scheme) (own_kind version kind) ≡ true
kinds_of-has_kind version [] scheme kind h = absurd (cc h)
kinds_of-has_kind version (k ∷ kinds) scheme kind h = ground (
  arith,
  kinds_of-has_kind version kinds scheme kind,
  h,
  eq_refl version.group,
  eq_refl version.version,
)

listed_schemes-SchemesLaw : SchemesLaw listed_schemes
listed_schemes-SchemesLaw = record {
  version_of = λ b. b.0;
  contains = λ b kind. any (λ k. k == kind) b.1;
  version_new = λ version. refl;
  version_register = λ b kinds. refl;
  registers = λ b kinds kind i. any_here kind kinds b.1 i;
  register_keeps = λ b kinds kind h. any_later (λ k. k == kind) kinds b.1 h;
  adds = λ b scheme kind h. kinds_of-has_kind b.0 b.1 scheme kind h;
  add_keeps = λ b scheme k h. any_later (λ g. same_kind g k) (kinds_of b.0 b.1) scheme h;
  adds_client_go = λ scheme kind i.
      kinds_of-has_kind core_v1 core_kinds scheme kind (any_here kind core_kinds [] i);
  adds_cluster_api = λ scheme kind i.
      kinds_of-has_kind cluster_v1 ("Cluster" ∷ "Machine" ∷ []) scheme kind
        (any_here kind ("Cluster" ∷ "Machine" ∷ []) [] i);
  cluster_api_keeps = λ scheme k h.
      any_later (λ g. same_kind g k) (kinds_of cluster_v1 ("Cluster" ∷ "Machine" ∷ [])) scheme h;
}

main-KnowsTypes_example :
    All (KnowsTypes listed_schemes listed_schemes-SchemesLaw) (main all_succeed default_flags).calls
main-KnowsTypes_example =
    main-KnowsTypes listed_schemes listed_schemes-SchemesLaw all_succeed default_flags
